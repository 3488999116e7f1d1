-- ===== src/Transcript.antt =====
-- conversation/message_utils.go, `messagesToText`: the transcript that the summarizing model reads.
-- Text is a string of characters: it reached the conversation through JSON, whose decoder leaves
-- valid UTF-8 only. `String` has its own `[]`, `∷` and `++`.
use Prim.Native.Char.{Char, code, len_utf8}
use Prim.Native.String
use inber.Prelude.{
  ℕ, ◌-◌, List, [], ◌∷◌, ◌++◌, Option, none, some, Bool, true, false, ◌&&◌, ◌||◌, leb, ◌==◌,
  if◌then◌else◌, String, map,
}
use inber.Message.{
  Role, user, assistant, Block, text, tool_use, tool_result, thinking, redacted_thinking, other,
  ToolResult, ResultPart, result_text, result_image, Message,
}
pub mod Lines
pub mod Breaks
pub mod Headings

abbrev pub is_newline : Char → Bool
is_newline c = code c == 10

abbrev pub is_return : Char → Bool
is_return c = code c == 13

-- \n, \v, \f, \r, NEL, and the line and paragraph separators.
abbrev pub is_break : Char → Bool
is_break c =
    (code c == 10)
    || (code c == 11)
    || (code c == 12)
    || (code c == 13)
    || (code c == 0x85)
    || (code c == 0x2028)
    || (code c == 0x2029)

-- `lineBreaksAsNewlines`; the flag says that the character before was a carriage return.
unfoldable pub replace_breaks : Bool → String → String
replace_breaks returned String.[] = ""
replace_breaks returned (String.◌∷◌ c s) =
    let rest = replace_breaks (is_return c) s in
    if returned && is_newline c then rest else String.◌∷◌ (if is_break c then "\n" else c) rest

abbrev pub onto_first : Char → List String → List String
onto_first c [] = String.◌∷◌ c "" ∷ []
onto_first c (line ∷ lines) = String.◌∷◌ c line ∷ lines

-- `strings.Split(s, "\n")`.
unfoldable pub split_lines : String → List String
split_lines String.[] = "" ∷ []
split_lines (String.◌∷◌ c s) =
    let rest = split_lines s in if is_newline c then "" ∷ rest else onto_first c rest

-- `strings.Join`.
unfoldable pub join : String → List String → String
join separator [] = ""
join separator (line ∷ []) = line
join separator (line ∷ next ∷ lines) =
    String.◌++◌ line (String.◌++◌ separator (join separator (next ∷ lines)))

abbrev pub indented : String → String
indented line = String.◌∷◌ " " (String.◌∷◌ " " line)

unfoldable pub transcript_entry : String → String → String
transcript_entry label content =
    String.◌++◌ label
      (String.◌++◌ ":\n" (join "\n" (map indented (split_lines (replace_breaks false content)))))

-- `textutil.Truncate`: the longest prefix of whole characters within a number of bytes.
unfoldable pub truncate : ℕ → String → String
truncate budget String.[] = ""
truncate budget (String.◌∷◌ c s) =
    let rest = truncate (budget - len_utf8 c) s in
    if leb (len_utf8 c) budget then String.◌∷◌ c rest else ""

-- `textutil.TruncateWith`.
unfoldable pub truncate_with : ℕ → String → String → String
unfolding truncate
truncate_with budget marker s =
    if leb (String.len s) budget then s else String.◌++◌ (truncate budget s) marker

abbrev pub part_texts : List ResultPart → List String
part_texts [] = []
part_texts (result_text s ∷ parts) = s ∷ part_texts parts
part_texts (result_image s ∷ parts) = part_texts parts

unfoldable pub extract_tool_result_text : ToolResult → String
unfolding join truncate_with
extract_tool_result_text r = truncate_with 200 "..." (join "\n" (part_texts r.content))

abbrev pub role_name : Role → String
role_name user = "user"
role_name assistant = "assistant"

abbrev pub result_label : Option Bool → String
result_label none = "tool_result"
result_label (some false) = "tool_result"
result_label (some true) = "tool_result failed"

-- The label and the content of the entry that one block gives.
unfoldable pub block_entry : Role → Block → List (String × String)
unfolding extract_tool_result_text
block_entry role (text s) = (role_name role, s) ∷ []
block_entry role (tool_use u) =
    (role_name role, String.◌++◌ "[tool_use: " (String.◌++◌ u.name "]")) ∷ []
block_entry role (tool_result r) =
    (
      "tool",
      String.◌++◌ "[" (
          String.◌++◌ (result_label r.is_error)
            (String.◌++◌ ": " (String.◌++◌ (extract_tool_result_text r) "]"))),
    )
    ∷ []
block_entry role (thinking s) = []
block_entry role (redacted_thinking s) = []
block_entry role (other s) = []

abbrev pub block_entries : Role → List Block → List (String × String)
block_entries role [] = []
block_entries role (b ∷ bs) = block_entry role b ++ block_entries role bs

unfoldable pub transcript_entries : List Message → List (String × String)
unfolding block_entry
transcript_entries [] = []
transcript_entries (m ∷ ms) = block_entries m.role m.content ++ transcript_entries ms

abbrev pub rendered : String × String → String
rendered e = transcript_entry e.0 e.1

unfoldable pub messages_to_text : List Message → String
messages_to_text ms = join "\n\n" (map rendered (transcript_entries ms))
