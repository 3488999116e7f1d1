-- ===== src/Transcript/Breaks.antt =====
-- The line breaks of a rendered transcript (conversation/message_utils.go,
-- `lineBreaksAsNewlines`).
use Prim.Native.Char.{Char}
use Prim.Native.String
use package.text.Mathlib.TextLemmas.{nil-append, cons-append}
use inber.Prelude.{
  String, ◌≡◌, refl, sym, subst, ◌∙◌, inl, inr, List, [], ◌∷◌, map, Bool, false, All, Bool-cases,
  if◌then◌else◌, ◌&&◌,
}
use inber.Transcript.{
  is_newline, is_return, is_break, replace_breaks, split_lines, onto_first, join, indented,
  transcript_entry, rendered,
}

-- Split at whatever a reader takes as a line break.
unfoldable pub split_breaks : String → List String
split_breaks String.[] = "" ∷ []
split_breaks (String.◌∷◌ c s) =
    let rest = split_breaks s in if is_break c then "" ∷ rest else onto_first c rest

-- The only line breaks are newlines.
abbrev pub IsPlain : String → Type 0
IsPlain String.[] = Unit {0}
IsPlain (String.◌∷◌ c s) = (is_break c ≡ is_newline c) × IsPlain s

pub split_breaks_of_IsPlain : (s : String) → IsPlain s → split_breaks s ≡ split_lines s
unfolding split_breaks split_lines
split_breaks_of_IsPlain String.[] h = refl
split_breaks_of_IsPlain (String.◌∷◌ c s) (e, h) = rw (e, split_breaks_of_IsPlain s h) refl

IsPlain-append : (s t : String) → IsPlain s → IsPlain t → IsPlain (String.◌++◌ s t)
IsPlain-append String.[] t h k = subst IsPlain (sym (nil-append t)) k
IsPlain-append (String.◌∷◌ c s) t (e, h) k =
    subst IsPlain (sym (cons-append c s t)) (e, IsPlain-append s t h k)

IsPlain-join :
    (separator : String) (lines : List String)
    → IsPlain separator
    → All IsPlain lines
    → IsPlain (join separator lines)
unfolding join
IsPlain-join separator [] p h = tt
IsPlain-join separator (line ∷ []) p (h, _) = h
IsPlain-join separator (line ∷ next ∷ lines) p (h, hs) =
    IsPlain-append line _ h
      (IsPlain-append separator _ p (IsPlain-join separator (next ∷ lines) p hs))

not_newline : (c : Char) → is_break c ≡ false → is_newline c ≡ false
not_newline c h = elim (Bool-cases (is_newline c)) [ inl e ↦ cc (h, e) | inr e ↦ e ]

IsPlain-replace_breaks : (returned : Bool) (s : String) → IsPlain (replace_breaks returned s)
unfolding replace_breaks
IsPlain-replace_breaks returned String.[] = tt
IsPlain-replace_breaks returned (String.◌∷◌ c s) =
    let rest = IsPlain-replace_breaks (is_return c) s in
    elim (Bool-cases (returned && is_newline c)) [
      | inl e ↦ rw e rest
      | inr e ↦ elim (Bool-cases (is_break c)) [
        | inl b ↦ rw (e, b) (refl, rest)
        | inr b ↦ rw (e, b) (b ∙ sym (not_newline c b), rest)
      ]
    ]

onto_first-IsPlain :
    (c : Char) (lines : List String)
    → is_break c ≡ is_newline c
    → All IsPlain lines
    → All IsPlain (onto_first c lines)
onto_first-IsPlain c [] e h = ((e, tt), tt)
onto_first-IsPlain c (line ∷ lines) e (h, hs) = ((e, h), hs)

split_lines-IsPlain : (s : String) → IsPlain s → All IsPlain (split_lines s)
unfolding split_lines
split_lines-IsPlain String.[] h = (tt, tt)
split_lines-IsPlain (String.◌∷◌ c s) (e, h) = elim (Bool-cases (is_newline c)) [
  | inl n ↦ rw n (tt, split_lines-IsPlain s h)
  | inr n ↦ rw n (onto_first-IsPlain c (split_lines s) e (split_lines-IsPlain s h))
]

indented-IsPlain : (lines : List String) → All IsPlain lines → All IsPlain (map indented lines)
indented-IsPlain [] h = tt
indented-IsPlain (line ∷ lines) (h, hs) = ((refl, (refl, h)), indented-IsPlain lines hs)

transcript_entry-IsPlain :
    (label content : String) → IsPlain label → IsPlain (transcript_entry label content)
unfolding transcript_entry
transcript_entry-IsPlain label content h = IsPlain-append label _ h (
    IsPlain-append ":\n" _ (refl, (refl, tt))
      (IsPlain-join "\n" _ (refl, tt)
        (indented-IsPlain _ (split_lines-IsPlain _ (IsPlain-replace_breaks false content)))))

rendered-IsPlain :
    (es : List (String × String)) → All (λ e. IsPlain e.0) es → All IsPlain (map rendered es)
rendered-IsPlain [] h = tt
rendered-IsPlain (e ∷ es) (h, hs) = (transcript_entry-IsPlain e.0 e.1 h, rendered-IsPlain es hs)

pub join-rendered-IsPlain :
    (es : List (String × String))
    → All (λ e. IsPlain e.0) es
    → IsPlain (join "\n\n" (map rendered es))
join-rendered-IsPlain es h = IsPlain-join "\n\n" _ (refl, (refl, tt)) (rendered-IsPlain es h)
