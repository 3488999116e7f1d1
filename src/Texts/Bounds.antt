-- ===== src/Texts/Bounds.antt =====
-- The cuts of internal/textutil/textutil.go: `Truncate`, `TruncateTail` and `TruncateWith`.
use Prim.Native.Char.{Char, len_utf8}
use Prim.Native.String
use Prim.Native.String.len
use text.Mathlib.TextLemmas.{nil-append, cons-append, head-eq_of_cons-eq, tail-eq_of_cons-eq}
use text.Mathlib.TextPositions.{len-append}
use inber.Prelude.{
  ℕ, ◌+◌, ◌-◌, ◌≤◌, ◌<◌, String, ◌≡◌, refl, sym, ap, subst, ◌∙◌, inl, inr, arith, leb, leb→le,
  Bool-cases,
}
use inber.Transcript.{truncate}
use inber.Texts.{truncate_tail}

-- Of the prefixes of whole characters within the budget, none is longer.
abbrev pub IsLongestPrefix : ℕ → String → String → Type 0
IsLongestPrefix budget s p =
    ((rest : String) × (String.◌++◌ p rest ≡ s))
    × (String.len p ≤ budget)
    × ((q rest : String)
        → String.◌++◌ q rest ≡ s
        → String.len q ≤ budget
        → String.len q ≤ String.len p)

abbrev pub IsLongestSuffix : ℕ → String → String → Type 0
IsLongestSuffix budget s p =
    ((front : String) × (String.◌++◌ front p ≡ s))
    × (String.len p ≤ budget)
    × ((front q : String)
        → String.◌++◌ front q ≡ s
        → String.len q ≤ budget
        → String.len q ≤ String.len p)

pub len-cons : (c : Char) (s : String) → String.len (String.◌∷◌ c s) ≡ len_utf8 c + String.len s
len-cons c s = len.cons c s

IsLongestPrefix-cons :
    (budget : ℕ) (c : Char) (s p : String)
    → len_utf8 c ≤ budget
    → IsLongestPrefix (budget - len_utf8 c) s p
    → IsLongestPrefix budget (String.◌∷◌ c s) (String.◌∷◌ c p)
IsLongestPrefix-cons budget c s p w ((rest, e), fits, longest) =
    ((rest, cons-append c p rest ∙ ap (String.◌∷◌ c) e), omega (arith, len-cons c p), longer)
  where
    longer :
        (q more : String)
        → String.◌++◌ q more ≡ String.◌∷◌ c s
        → String.len q ≤ budget
        → String.len q ≤ String.len (String.◌∷◌ c p)
    longer String.[] more f b = omega arith
    longer (String.◌∷◌ d q) more f b =
        let same : String.◌∷◌ d (String.◌++◌ q more) ≡ String.◌∷◌ c s =
          sym (cons-append d q more) ∙ f in
        let width : len_utf8 d ≡ len_utf8 c = ap len_utf8 (head-eq_of_cons-eq same) in
        let tail = longest q more (tail-eq_of_cons-eq same) (omega (arith, len-cons d q)) in
        omega (arith, len-cons d q, len-cons c p)

IsLongestPrefix-nil :
    (budget : ℕ) (c : Char) (s : String)
    → budget < len_utf8 c
    → IsLongestPrefix budget (String.◌∷◌ c s) ""
IsLongestPrefix-nil budget c s over =
    ((String.◌∷◌ c s, nil-append (String.◌∷◌ c s)), omega arith, none_fits)
  where
    none_fits :
        (q more : String)
        → String.◌++◌ q more ≡ String.◌∷◌ c s
        → String.len q ≤ budget
        → String.len q ≤ 0
    none_fits String.[] more f b = omega arith
    none_fits (String.◌∷◌ d q) more f b =
        let width : len_utf8 d ≡ len_utf8 c =
          ap len_utf8 (head-eq_of_cons-eq (sym (cons-append d q more) ∙ f)) in
        omega (arith, len-cons d q)

pub truncate-IsLongestPrefix :
    (budget : ℕ) (s : String) → IsLongestPrefix budget s (truncate budget s)
unfolding truncate
truncate-IsLongestPrefix budget String.[] =
    (("", refl), omega arith, λ q more e b. omega (arith, ap String.len e, len-append q more))
truncate-IsLongestPrefix budget (String.◌∷◌ c s) = elim (Bool-cases (leb (len_utf8 c) budget)) [
  | inl fits ↦ subst (IsLongestPrefix budget (String.◌∷◌ c s)) (rw fits refl) (
      IsLongestPrefix-cons budget c s (truncate (budget - len_utf8 c) s)
        (leb→le (len_utf8 c) budget fits) (truncate-IsLongestPrefix (budget - len_utf8 c) s))
  | inr over ↦
      subst (IsLongestPrefix budget (String.◌∷◌ c s)) (rw over refl)
        (IsLongestPrefix-nil budget c s (ground arith))
]

IsLongestSuffix-cons :
    (budget : ℕ) (c : Char) (s p : String)
    → budget < String.len (String.◌∷◌ c s)
    → IsLongestSuffix budget s p
    → IsLongestSuffix budget (String.◌∷◌ c s) p
IsLongestSuffix-cons budget c s p over ((front, e), fits, longest) =
    ((String.◌∷◌ c front, cons-append c front p ∙ ap (String.◌∷◌ c) e), fits, longer)
  where
    longer :
        (before q : String)
        → String.◌++◌ before q ≡ String.◌∷◌ c s
        → String.len q ≤ budget
        → String.len q ≤ String.len p
    longer String.[] q f b = omega (arith, ap String.len (sym (nil-append q) ∙ f))
    longer (String.◌∷◌ d before) q f b =
        longest before q (tail-eq_of_cons-eq (sym (cons-append d before q) ∙ f)) b

IsLongestSuffix-whole :
    (budget : ℕ) (s : String) → String.len s ≤ budget → IsLongestSuffix budget s s
IsLongestSuffix-whole budget s fits =
    (("", nil-append s), fits, λ before q e b. omega (arith, ap String.len e, len-append before q))

pub truncate_tail-IsLongestSuffix :
    (budget : ℕ) (s : String) → IsLongestSuffix budget s (truncate_tail budget s)
unfolding truncate_tail
truncate_tail-IsLongestSuffix budget String.[] = IsLongestSuffix-whole budget "" (omega arith)
truncate_tail-IsLongestSuffix budget (String.◌∷◌ c s) =
    elim (Bool-cases (leb (String.len (String.◌∷◌ c s)) budget)) [
      | inl fits ↦
          subst (IsLongestSuffix budget (String.◌∷◌ c s)) (rw fits refl)
            (IsLongestSuffix-whole budget (String.◌∷◌ c s) (leb→le _ budget fits))
      | inr over ↦ subst (IsLongestSuffix budget (String.◌∷◌ c s)) (rw over refl) (
          IsLongestSuffix-cons budget c s (truncate_tail budget s) (ground arith)
            (truncate_tail-IsLongestSuffix budget s))
    ]

pub cuts-AreLongest :
    (budget : ℕ) (s : String)
    → IsLongestPrefix budget s (truncate budget s)
      × IsLongestSuffix budget s (truncate_tail budget s)
cuts-AreLongest budget s =
    (truncate-IsLongestPrefix budget s, truncate_tail-IsLongestSuffix budget s)
