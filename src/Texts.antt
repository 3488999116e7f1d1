-- ===== src/Texts.antt =====
-- Go's `strings` and internal/textutil/textutil.go, as conversation/ uses them. `truncate` and `truncate_with` of
-- the latter stand in Transcript.
use Prim.Native.Char.{Char, code, len_utf8}
use Prim.Native.String
use inber.Prelude.{
  ℕ, ◌-◌, ◌+◌, String, List, [], ◌∷◌, Bool, true, false, ◌||◌, ◌&&◌, leb, ltb, ◌==◌, if◌then◌else◌,
}
use inber.Transcript.{is_newline, is_return, truncate_with, onto_first}
pub mod Bounds

-- `unicode.IsSpace`.
abbrev pub is_space : Char → Bool
is_space c =
    let n = code c in
    (leb 9 n && leb n 13)
    || (n == 0x20)
    || (n == 0x85)
    || (n == 0xA0)
    || (n == 0x1680)
    || (leb 0x2000 n && leb n 0x200A)
    || (n == 0x2028)
    || (n == 0x2029)
    || (n == 0x202F)
    || (n == 0x205F)
    || (n == 0x3000)

unfoldable pub trim_left : (Char → Bool) → String → String
trim_left p String.[] = ""
trim_left p (String.◌∷◌ c s) = let rest = trim_left p s in if p c then rest else String.◌∷◌ c s

abbrev pub without_last : Bool → Char → String → String
without_last drops c String.[] = if drops then "" else String.◌∷◌ c ""
without_last drops c (String.◌∷◌ d s) = String.◌∷◌ c (String.◌∷◌ d s)

unfoldable pub trim_right : (Char → Bool) → String → String
trim_right p String.[] = ""
trim_right p (String.◌∷◌ c s) = without_last (p c) c (trim_right p s)

-- `strings.TrimSpace`.
unfoldable pub trim_space : String → String
unfolding trim_left trim_right
trim_space s = trim_right is_space (trim_left is_space s)

-- `strings.TrimRight(s, " ")`.
unfoldable pub trim_right_blanks : String → String
unfolding trim_right
trim_right_blanks s = trim_right (λ c. code c == 0x20) s

-- The two calls of `ReplaceAll` in `truncateToOneLine`.
unfoldable pub on_one_line : String → String
on_one_line String.[] = ""
on_one_line (String.◌∷◌ c s) =
    let rest = on_one_line s in
    if is_newline c then String.◌∷◌ " " rest else if is_return c then rest else String.◌∷◌ c rest

unfoldable pub truncate_to_one_line : ℕ → String → String
unfolding trim_space on_one_line truncate_with
truncate_to_one_line max_len s = truncate_with max_len "..." (trim_space (on_one_line s))

abbrev ends_sentence : Char → Bool
ends_sentence c = (code c == 0x2E) || (code c == 0x21) || (code c == 0x3F)

abbrev unless_blank : String → List String → List String
unless_blank String.[] fields = fields
unless_blank (String.◌∷◌ c s) fields = String.◌∷◌ c s ∷ fields

-- The field that a text begins with, which may be empty, and the fields behind it.
unfoldable pub fields_from : String → String × List String
fields_from String.[] = ("", [])
fields_from (String.◌∷◌ c s) =
    let rest = fields_from s in
    if ends_sentence c then ("", unless_blank rest.0 rest.1) else (String.◌∷◌ c rest.0, rest.1)

-- `strings.FieldsFunc`: the longest pieces that end no sentence, but for the empty ones.
unfoldable pub sentences : String → List String
unfolding fields_from
sentences s = unless_blank (fields_from s).0 (fields_from s).1

-- The loop of `truncateToSummary`, from the sentence `i` on, with `charCount`.
unfoldable pub leading_sentences : ℕ → ℕ → List String → List String
leading_sentences i char_count [] = []
leading_sentences i char_count (s ∷ more) =
    let sentence = trim_space s in
    let short = ltb (String.len sentence) 10 in
    let count = if short then char_count else char_count + String.len sentence in
    let rest = leading_sentences (i + 1) count more in
    if leb 3 i then [] else if short then rest else sentence ∷ (if ltb 300 count then [] else rest)

abbrev dot_joined : String → List String → String
dot_joined first [] = String.◌++◌ first "."
dot_joined first (next ∷ more) = String.◌++◌ first (String.◌++◌ ". " (dot_joined next more))

abbrev pub summary_of : String → List String → String
summary_of s [] = truncate_with 300 "..." s
summary_of s (first ∷ more) = dot_joined first more

unfoldable pub truncate_to_summary : String → String
unfolding sentences leading_sentences truncate_with
truncate_to_summary s = summary_of s (leading_sentences 0 0 (sentences s))

-- `textutil.TruncateTail`: the longest suffix of whole characters within a number of bytes.
unfoldable pub truncate_tail : ℕ → String → String
truncate_tail budget String.[] = ""
truncate_tail budget (String.◌∷◌ c s) =
    let rest = truncate_tail budget s in
    if leb (String.len (String.◌∷◌ c s)) budget then String.◌∷◌ c s else rest

-- Whether a text begins with another, read in lower case. The other is in ASCII, so of the letters beyond
-- ASCII only the two whose lower case is an ASCII letter matter.
abbrev lower_code : Char → ℕ
lower_code c =
    let n = code c in
    if leb 65 n && leb n 90
    then n + 32
    else if n == 0x130
    then 0x69
    else if n == 0x212A
    then 0x6B
    else n

abbrev begins_lower : String → String → Bool
begins_lower String.[] s = true
begins_lower (String.◌∷◌ d pattern) String.[] = false
begins_lower (String.◌∷◌ d pattern) (String.◌∷◌ c s) =
    (code d == lower_code c) && begins_lower pattern s

-- `strings.Contains(strings.ToLower(s), pattern)`, for a pattern in ASCII that is not empty.
unfoldable pub lower_contains : String → String → Bool
lower_contains pattern String.[] = false
lower_contains pattern (String.◌∷◌ c s) =
    begins_lower pattern (String.◌∷◌ c s) || lower_contains pattern s

abbrev begins : String → String → Bool
begins String.[] s = true
begins (String.◌∷◌ d pattern) String.[] = false
begins (String.◌∷◌ d pattern) (String.◌∷◌ c s) = (code d == code c) && begins pattern s

-- `strings.Contains`, for a text that is not empty.
unfoldable pub contains_text : String → String → Bool
contains_text pattern String.[] = false
contains_text pattern (String.◌∷◌ c s) = begins pattern (String.◌∷◌ c s) || contains_text pattern s

-- `strings.ToLower(s) == pattern`, for a pattern in ASCII.
unfoldable pub lower_is : String → String → Bool
lower_is String.[] String.[] = true
lower_is String.[] (String.◌∷◌ c s) = false
lower_is (String.◌∷◌ d pattern) String.[] = false
lower_is (String.◌∷◌ d pattern) (String.◌∷◌ c s) = (code d == lower_code c) && lower_is pattern s
