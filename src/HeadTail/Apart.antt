-- ===== src/HeadTail/Apart.antt =====
-- session/truncate.go: the head and the tail of an output that is cut.
use Prim.Native.Char.{len_utf8}
use Prim.Native.String
use Prim.Native.String.len
use text.Mathlib.TextLemmas.{
  nil-append, cons-append, append_assoc, head-eq_of_cons-eq, tail-eq_of_cons-eq,
}
use text.Mathlib.TextPositions.{len-append, slice-append_middle, len_utf8-pos}
use mathlib.Core.Path.{ap₂}
use inber.Prelude.{
  ℕ, suc, ◌+◌, ◌-◌, ◌*◌, ◌≤◌, ◌<◌, ◌/◌, String, ◌≡◌, refl, sym, ap, subst, ◌∙◌, inl, inr, arith,
  ltb, Bool-cases, Option, none, some, ◌&&◌,
}
use mathlib.Core.Option.{some_inj, none-ne-some}
use inber.Transcript.{truncate, is_newline}
use inber.Texts.{truncate_tail}
use inber.Texts.Bounds.{len-cons, truncate-IsLongestPrefix, truncate_tail-IsLongestSuffix}
use inber.HeadTail.{
  before_last_newline, around_first_newline, clean_head, clean_tail, last_newline_with,
  longer_front, head_of, tail_of, omitted,
}

-- A prefix, or a suffix, within a budget.
abbrev IsHead : ℕ → String → String → Type 0
IsHead chars s p = ((rest : String) × (String.◌++◌ p rest ≡ s)) × (String.len p ≤ chars)

abbrev IsTail : ℕ → String → String → Type 0
IsTail chars s q = ((front : String) × (String.◌++◌ front q ≡ s)) × (String.len q ≤ chars)

before_last_newline-prefix :
    (s front : String)
    → before_last_newline s ≡ some front
    → (rest : String) × (String.◌++◌ front rest ≡ s)
unfolding before_last_newline
before_last_newline-prefix String.[] front e = absurd (none-ne-some front e)
before_last_newline-prefix (String.◌∷◌ c s) front e =
    go (before_last_newline s) (before_last_newline-prefix s) e
  where
    go :
        (found : Option String)
        → ((f : String) → found ≡ some f → (rest : String) × (String.◌++◌ f rest ≡ s))
        → last_newline_with c found ≡ some front
        → (rest : String) × (String.◌++◌ front rest ≡ String.◌∷◌ c s)
    go (some f) h e =
        let (rest, g) = h f refl in
        (
          rest,
          subst (λ p. String.◌++◌ p rest ≡ String.◌∷◌ c s) (some_inj.0 e)
              (cons-append c f rest ∙ ap (String.◌∷◌ c) g),
        )
    go none h e = elim (Bool-cases (is_newline c)) [
      | inl n ↦ (
        String.◌∷◌ c s,
        subst (λ p. String.◌++◌ p (String.◌∷◌ c s) ≡ String.◌∷◌ c s) (some_inj.0 (rw n at e))
            (nil-append (String.◌∷◌ c s)),
      )
      | inr n ↦ absurd (none-ne-some front (rw n at e))
    ]

around_first_newline-suffix :
    (s front rest : String)
    → around_first_newline s ≡ some (front, rest)
    → (before : String) × (String.◌++◌ before rest ≡ s)
unfolding around_first_newline
around_first_newline-suffix String.[] front rest e = absurd (none-ne-some (front, rest) e)
around_first_newline-suffix (String.◌∷◌ c s) front rest e = elim (Bool-cases (is_newline c)) [
  | inl n ↦
      let same : s ≡ rest = ap (λ p. p.1) (some_inj.0 (rw n at e)) in
      (String.◌∷◌ c "", cons-append c "" rest ∙ ap (String.◌∷◌ c) (nil-append rest ∙ sym same))
  | inr n ↦ go (around_first_newline s) (around_first_newline-suffix s) (rw n at e)
]
  where
    go :
        (found : Option (String × String))
        → ((f r : String) → found ≡ some (f, r) → (before : String) × (String.◌++◌ before r ≡ s))
        → longer_front c found ≡ some (front, rest)
        → (before : String) × (String.◌++◌ before rest ≡ String.◌∷◌ c s)
    go none h e = absurd (none-ne-some (front, rest) e)
    go (some (f, r)) h e =
        let same : r ≡ rest = ap (λ p. p.1) (some_inj.0 e) in
        let (before, g) = h f r refl in
        (
          String.◌∷◌ c before,
          cons-append c before rest ∙ ap (String.◌∷◌ c) (ap (String.◌++◌ before) (sym same) ∙ g),
        )

-- A prefix of a head is one, and a suffix of a tail.
IsHead-prefix :
    (chars : ℕ) (s p q rest : String) → IsHead chars s p → String.◌++◌ q rest ≡ p → IsHead chars s q
IsHead-prefix chars s p q rest ((more, e), few) f = (
  (String.◌++◌ rest more, sym (append_assoc q rest more) ∙ ap (λ t. String.◌++◌ t more) f ∙ e),
  omega (arith, len-append q rest, ap String.len f),
)

IsTail-suffix :
    (chars : ℕ) (s p q front : String)
    → IsTail chars s p
    → String.◌++◌ front q ≡ p
    → IsTail chars s q
IsTail-suffix chars s p q front ((more, e), few) f = (
  (String.◌++◌ more front, append_assoc more front q ∙ ap (String.◌++◌ more) f ∙ e),
  omega (arith, len-append front q, ap String.len f),
)

head_of-IsHead : (chars : ℕ) (s : String) → IsHead chars s (head_of chars s)
unfolding head_of
head_of-IsHead chars s =
    let (whole, few, longest) = truncate-IsLongestPrefix chars s in
    go (before_last_newline (truncate chars s)) refl (whole, few)
  where
    go :
        (found : Option String)
        → before_last_newline (truncate chars s) ≡ found
        → IsHead chars s (truncate chars s)
        → IsHead chars s (clean_head chars (truncate chars s) found)
    go none e h = h
    go (some front) e h = elim (Bool-cases (ltb (chars / 2) (String.len front))) [
      | inr early ↦ rw early h
      | inl late ↦
          let (rest, f) = before_last_newline-prefix (truncate chars s) front e in
          rw late (IsHead-prefix chars s (truncate chars s) front rest h f)
    ]

tail_of-IsTail : (chars : ℕ) (s : String) → IsTail chars s (tail_of chars s)
unfolding tail_of
tail_of-IsTail chars s =
    let (whole, few, longest) = truncate_tail-IsLongestSuffix chars s in
    go (around_first_newline (truncate_tail chars s)) refl (whole, few)
  where
    go :
        (found : Option (String × String))
        → around_first_newline (truncate_tail chars s) ≡ found
        → IsTail chars s (truncate_tail chars s)
        → IsTail chars s (clean_tail chars (truncate_tail chars s) found)
    go none e h = h
    go (some (front, rest)) e h =
        elim (Bool-cases (ltb 0 (String.len front) && ltb (String.len front) (chars / 2))) [
          | inr late ↦ rw late h
          | inl early ↦
              let (before, f) = around_first_newline-suffix (truncate_tail chars s) front rest e in
              rw early (IsTail-suffix chars s (truncate_tail chars s) rest before h f)
        ]

-- A head and a tail that are shorter together than the text have something between them.
between :
    (s p q rest front : String)
    → String.◌++◌ p rest ≡ s
    → String.◌++◌ front q ≡ s
    → String.len p + String.len q ≤ String.len s
    → (middle : String) × (String.◌++◌ p (String.◌++◌ middle q) ≡ s)
between s String.[] q rest front e f short = (front, nil-append _ ∙ f)
between s (String.◌∷◌ c p) q rest String.[] e f short =
    let (n, wide) = len_utf8-pos c in
    let same : String.len q ≡ String.len s = ap String.len (sym (nil-append q) ∙ f) in
    let none_left : suc n + String.len p ≤ 0 = omega (arith, len-cons c p) in absurd (omega arith)
between s (String.◌∷◌ c p) q rest (String.◌∷◌ d front) e f short =
    let shared : String.◌∷◌ c (String.◌++◌ p rest) ≡ String.◌∷◌ d (String.◌++◌ front q) =
      sym (cons-append c p rest) ∙ e ∙ sym f ∙ cons-append d front q in
    let first : c ≡ d = head-eq_of_cons-eq shared in
    let width : len_utf8 c ≡ len_utf8 d = ap len_utf8 first in
    let whole : String.len s ≡ len_utf8 d + String.len (String.◌++◌ front q) =
      ap String.len (sym f ∙ cons-append d front q) ∙ len-cons d (String.◌++◌ front q) in
    let (middle, g) =
      between (String.◌++◌ front q) p q rest front (tail-eq_of_cons-eq shared) refl
        (omega (arith, len-cons c p)) in
    (
      middle,
      cons-append c p (String.◌++◌ middle q)
          ∙ ap (String.◌∷◌ c) g
          ∙ ap (λ k. String.◌∷◌ k (String.◌++◌ front q)) first
          ∙ sym (cons-append d front q)
          ∙ f,
    )

middle_slice :
    (s p m q : String)
    → String.◌++◌ p (String.◌++◌ m q) ≡ s
    → String.slice s (String.len p) (String.len s - String.len q) ≡ m
middle_slice s p m q e =
    let whole : String.len s ≡ String.len p + (String.len m + String.len q) =
      ap String.len (sym e)
      ∙ len-append p (String.◌++◌ m q)
      ∙ ap (λ n. String.len p + n) (len-append m q) in
    let end : String.len s - String.len q ≡ String.len p + String.len m = omega arith in
    ap₂ (λ t n. String.slice t (String.len p) n) (sym e) end ∙ slice-append_middle p m q

-- A text parted into a head and a tail within their budgets, and what is omitted between them.
abbrev pub IsParted : ℕ → ℕ → String → String → String → Type 0
IsParted head_chars tail_chars content head tail =
    (String.◌++◌ head (String.◌++◌ (omitted content head tail) tail) ≡ content)
    × (String.len head ≤ head_chars)
    × (String.len tail ≤ tail_chars)

pub head_of-tail_of-IsParted :
    (content : String) (head_tokens tail_tokens : ℕ)
    → head_tokens * 4 + tail_tokens * 4 < String.len content
    → IsParted
        (head_tokens * 4)
        (tail_tokens * 4)
        content
        (head_of (head_tokens * 4) content)
        (tail_of (tail_tokens * 4) content)
unfolding omitted
head_of-tail_of-IsParted content head_tokens tail_tokens long =
    let head = head_of (head_tokens * 4) content in
    let tail = tail_of (tail_tokens * 4) content in
    let ((rest, e), few) = head_of-IsHead (head_tokens * 4) content in
    let ((front, f), short) = tail_of-IsTail (tail_tokens * 4) content in
    let (middle, g) = between content head tail rest front e f (omega arith) in
    (
      ap (λ m. String.◌++◌ head (String.◌++◌ m tail)) (middle_slice content head middle tail g) ∙ g,
      few,
      short,
    )
