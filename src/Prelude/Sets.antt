-- ===== src/Prelude/Sets.antt =====
-- Sets of strings, the source's `map[string]bool`, as lists that are only asked for membership.
use Prim.Native.String.{String}
use mathlib.Core.Path.{◌≡◌, refl, sym, subst}
use mathlib.Core.Logic.{inl, inr}
use mathlib.Core.Bool.{Bool, true, false, ◌||◌}
use mathlib.Core.List.{List, [], ◌∷◌, ◌++◌}
use native.Mathlib.Omega.{arith}
use text.Mathlib.Text.{◌==◌ as str_eq}
use text.Mathlib.TextEquality.{eq_iff}
use inber.Prelude.Tests.{if◌then◌else◌, Bool-cases}
use inber.Prelude.Lists.{All}

abbrev pub contains : List String → String → Bool
contains [] s = false
contains (x ∷ xs) s = str_eq x s || contains xs s

-- The entries of the second list that the first lacks, in order and as often.
unfoldable pub without : List String → List String → List String
without known [] = []
without known (x ∷ xs) = if contains known x then without known xs else x ∷ without known xs

abbrev pub Covers : List String → List String → Type 0
Covers known wanted = All (λ s. contains known s ≡ true) wanted

pub contains-append :
    (xs ys : List String) (s : String) → contains (xs ++ ys) s ≡ (contains xs s || contains ys s)
contains-append [] ys s = refl
contains-append (x ∷ xs) ys s = ground (arith, contains-append xs ys s)

pub contains_self : (s : String) (xs : List String) → contains (s ∷ xs) s ≡ true
contains_self s xs = ground (arith, (eq_iff s s).1 refl)

pub Covers-append_left : (xs ys wanted : List String) → Covers xs wanted → Covers (xs ++ ys) wanted
Covers-append_left xs ys [] h = tt
Covers-append_left xs ys (w ∷ ws) h =
    (ground (arith, contains-append xs ys w), Covers-append_left xs ys ws h.1)

pub Covers-append_right : (xs ys wanted : List String) → Covers ys wanted → Covers (xs ++ ys) wanted
Covers-append_right xs ys [] h = tt
Covers-append_right xs ys (w ∷ ws) h =
    (ground (arith, contains-append xs ys w), Covers-append_right xs ys ws h.1)

pub Covers-cons : (x : String) (xs wanted : List String) → Covers xs wanted → Covers (x ∷ xs) wanted
Covers-cons x xs [] h = tt
Covers-cons x xs (w ∷ ws) h = (ground arith, Covers-cons x xs ws h.1)

pub Covers-refl : (xs : List String) → Covers xs xs
Covers-refl [] = tt
Covers-refl (x ∷ xs) = (contains_self x xs, Covers-cons x xs xs (Covers-refl xs))

without_known :
    (known : List String) (w : String) (ws : List String)
    → contains known w ≡ true
    → without known (w ∷ ws) ≡ without known ws
unfolding without
without_known known w ws e = rw e

without_unknown :
    (known : List String) (w : String) (ws : List String)
    → contains known w ≡ false
    → without known (w ∷ ws) ≡ w ∷ without known ws
unfolding without
without_unknown known w ws e = rw e

-- What is lacking, put in front, covers everything.
pub Covers-without : (known wanted : List String) → Covers (without known wanted ++ known) wanted
Covers-without known [] = tt
Covers-without known (w ∷ ws) = elim (Bool-cases (contains known w)) [
  | inl e ↦
      subst (λ k. Covers (k ++ known) (w ∷ ws)) (sym (without_known known w ws e))
        (ground (arith, contains-append (without known ws) known w), Covers-without known ws)
  | inr e ↦
      subst (λ k. Covers (k ++ known) (w ∷ ws)) (sym (without_unknown known w ws e))
        (
          contains_self w (without known ws ++ known),
          Covers-cons w (without known ws ++ known) ws (Covers-without known ws),
        )
]

-- Nothing is lacking where all is covered.
pub without-nil : (known wanted : List String) → Covers known wanted → without known wanted ≡ []
unfolding without
without-nil known [] h = refl
without-nil known (w ∷ ws) h = rw (without_known known w ws h.0) (without-nil known ws h.1)
