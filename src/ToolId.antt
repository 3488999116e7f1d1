-- ===== src/ToolId.antt =====
-- internal/toolid/toolid.go: identifiers made fit for the Anthropic API. Go's `range` over a string
-- visits its characters; the ids come out of JSON, whose decoder leaves valid UTF-8 only, so a
-- `String` of characters is exact.
use Prim.Native.Char.{Char, code}
use Prim.Native.String.{[], ◌∷◌, len}
use Prim.Native.String
use inber.Prelude.{
  ℕ, zero, suc, ◌/◌, ◌%◌, ◌≡◌, ◌≢◌, refl, String, Bool, true, false, ◌&&◌, ◌||◌, ltb, leb, ◌==◌,
  if◌then◌else◌,
}

-- [a-zA-Z0-9_-]
abbrev pub is_legal : Char → Bool
is_legal c =
    (leb b'a' (code c) && leb (code c) b'z')
    || (leb b'A' (code c) && leb (code c) b'Z')
    || (leb b'0' (code c) && leb (code c) b'9')
    || (code c == b'_')
    || (code c == b'-')

abbrev pub legal_or_underscore : Char → Char
legal_or_underscore c = if is_legal c then c else "_"

unfoldable pub replace_illegal : String → String
replace_illegal [] = []
replace_illegal (c ∷ s) = legal_or_underscore c ∷ replace_illegal s

abbrev pub digit : ℕ → Char
digit zero = "0"
digit (suc zero) = "1"
digit (suc (suc zero)) = "2"
digit (suc (suc (suc zero))) = "3"
digit (suc (suc (suc (suc zero)))) = "4"
digit (suc (suc (suc (suc (suc zero))))) = "5"
digit (suc (suc (suc (suc (suc (suc zero)))))) = "6"
digit (suc (suc (suc (suc (suc (suc (suc zero))))))) = "7"
digit (suc (suc (suc (suc (suc (suc (suc (suc zero)))))))) = "8"
digit (suc (suc (suc (suc (suc (suc (suc (suc (suc n))))))))) = "9"

-- `strconv.Itoa` of a length; a number has no more digits than its value plus one.
unfoldable pub itoa_within : ℕ → ℕ → String
itoa_within zero n = []
itoa_within (suc fuel) n =
    let front = itoa_within fuel (n / 10) in
    String.◌++◌ (if ltb n 10 then [] else front) (digit (n % 10) ∷ [])

unfoldable pub sanitize : String → String
unfolding replace_illegal itoa_within
sanitize [] = String.◌++◌ "tool_" (itoa_within (suc (len [])) (len []))
sanitize (c ∷ s) = replace_illegal (c ∷ s)

abbrev pub IsLegal : String → Type 0
IsLegal [] = Unit {0}
IsLegal (c ∷ s) = (is_legal c ≡ true) × IsLegal s

underscore_legal : (b : Bool) (c : Char) → is_legal c ≡ b → is_legal (if b then c else "_") ≡ true
underscore_legal true c e = e
underscore_legal false c e = refl

replace_illegal-IsLegal : (s : String) → IsLegal (replace_illegal s)
unfolding replace_illegal
replace_illegal-IsLegal [] = tt
replace_illegal-IsLegal (c ∷ s) = (underscore_legal (is_legal c) c refl, replace_illegal-IsLegal s)

-- Whatever the id, the result is not empty and holds only the characters that the API takes.
pub sanitize-IsLegal : (id : String) → IsLegal (sanitize id) × (sanitize id ≢ [])
unfolding sanitize
sanitize-IsLegal [] = ((refl, (refl, (refl, (refl, (refl, (refl, tt)))))), λ e. cc)
sanitize-IsLegal (c ∷ s) = (replace_illegal-IsLegal (c ∷ s), λ e. cc)

replace_illegal_of_IsLegal : (s : String) → IsLegal s → replace_illegal s ≡ s
unfolding replace_illegal
replace_illegal_of_IsLegal [] h = refl
replace_illegal_of_IsLegal (c ∷ s) (p, h) = rw (p, replace_illegal_of_IsLegal s h)

sanitize_dots : sanitize "call:1.é" ≡ "call_1__"
unfolding sanitize
sanitize_dots = refl

sanitize_empty : sanitize "" ≡ "tool_0"
unfolding sanitize
sanitize_empty = refl
