-- ===== src/Transcript/Lines.antt =====
-- Lines of text, split and joined, as conversation/message_utils.go does.
use Prim.Native.Char.{Char}
use Prim.Native.String
use text.Mathlib.TextLemmas.{nil-append, cons-append}
use mathlib.Core.Path.{ap₂}
use inber.Prelude.{
  String, ◌≡◌, refl, ap, ◌∙◌, inl, inr, List, [], ◌∷◌, ◌++◌, false, All, Bool-cases,
}
use inber.Transcript.{is_newline, split_lines, join, onto_first}

abbrev pub OneLine : String → Type 0
OneLine String.[] = Unit {0}
OneLine (String.◌∷◌ c s) = (is_newline c ≡ false) × OneLine s

pub split_lines-nonempty :
    (s : String) → (line : String) × (lines : List String) × (split_lines s ≡ line ∷ lines)
unfolding split_lines
split_lines-nonempty String.[] = ("", [], refl)
split_lines-nonempty (String.◌∷◌ c s) =
    let (line, lines, e) = split_lines-nonempty s in
    elim (Bool-cases (is_newline c)) [
      | inl n ↦ ("", split_lines s, rw n)
      | inr n ↦ (String.◌∷◌ c line, lines, rw (n, e))
    ]

onto_first-append :
    (c : Char) (s : String) (more : List String)
    → onto_first c (split_lines s ++ more) ≡ onto_first c (split_lines s) ++ more
onto_first-append c s more = let (line, lines, e) = split_lines-nonempty s in rw e

-- A line break between two texts parts their lines.
pub split_lines-append :
    (s rest : String)
    → split_lines (String.◌++◌ s (String.◌∷◌ "\n" rest)) ≡ split_lines s ++ split_lines rest
unfolding split_lines
split_lines-append String.[] rest = rw nil-append
split_lines-append (String.◌∷◌ c s) rest = rw cons-append (elim (Bool-cases (is_newline c)) [
  | inl n ↦ rw (n, split_lines-append s rest)
  | inr n ↦ rw (n, split_lines-append s rest) (onto_first-append c s (split_lines rest))
])

pub split_lines_of_OneLine : (line : String) → OneLine line → split_lines line ≡ line ∷ []
unfolding split_lines
split_lines_of_OneLine String.[] h = refl
split_lines_of_OneLine (String.◌∷◌ c line) (n, h) = rw (n, split_lines_of_OneLine line h)

onto_first-OneLine :
    (c : Char) (lines : List String)
    → is_newline c ≡ false
    → All OneLine lines
    → All OneLine (onto_first c lines)
onto_first-OneLine c [] n h = ((n, tt), tt)
onto_first-OneLine c (line ∷ lines) n (h, hs) = ((n, h), hs)

pub split_lines-OneLine : (s : String) → All OneLine (split_lines s)
unfolding split_lines
split_lines-OneLine String.[] = (tt, tt)
split_lines-OneLine (String.◌∷◌ c s) = elim (Bool-cases (is_newline c)) [
  | inl n ↦ rw n (tt, split_lines-OneLine s)
  | inr n ↦ rw n (onto_first-OneLine c (split_lines s) n (split_lines-OneLine s))
]

-- Lines that are joined are the lines of the text.
pub split_lines-join :
    (line : String) (lines : List String)
    → All OneLine (line ∷ lines)
    → split_lines (join "\n" (line ∷ lines)) ≡ line ∷ lines
unfolding join
split_lines-join line [] (h, _) = split_lines_of_OneLine line h
split_lines-join line (next ∷ lines) (h, hs) =
    ap (λ rest. split_lines (String.◌++◌ line rest))
      (cons-append "\n" "" _ ∙ ap (String.◌∷◌ "\n") (nil-append (join "\n" (next ∷ lines))))
    ∙ split_lines-append line (join "\n" (next ∷ lines))
    ∙ ap₂ ◌++◌ (split_lines_of_OneLine line h) (split_lines-join next lines hs)
