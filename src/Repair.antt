-- ===== src/Repair.antt =====
-- conversation/repair.go: the passes that make a transcript acceptable to the API again. A pass
-- that rewrites its slice in place returns the new list; the loops that look one message ahead
-- carry the message before it.
use inber.Prelude.{
  String, ℕ, ◌+◌, List, [], ◌∷◌, ◌++◌, map, Option, some, Bool, true, false, ◌&&◌, length, str_eq,
  if◌then◌else◌, without,
}
use inber.Message.{
  Role, user, assistant, Block, text, tool_use, tool_result, thinking, redacted_thinking, other,
  ToolResult, result_text, Message, call_ids, answer_ids, user_message,
}
pub mod Answered
pub mod Alternation
pub mod Content
pub mod Counting
pub mod Extension

abbrev pub interrupted_tool_result_text : String
interrupted_tool_result_text = "[session interrupted — tool call was not completed]"

-- The synthetic result of a call that was never answered.
abbrev pub interrupted_result : String → Block
interrupted_result id = tool_result (record {
  tool_use_id = id;
  is_error = some true;
  content = result_text interrupted_tool_result_text ∷ [];
})

abbrev pub is_assistant : Message → Bool
is_assistant m = elim m.role [ user ↦ false | assistant ↦ true ]

abbrev pub is_user : Message → Bool
is_user m = elim m.role [ user ↦ true | assistant ↦ false ]

-- Whether the last message is the user's.
abbrev pub ends_with_user : List Message → Bool
ends_with_user [] = false
ends_with_user (m ∷ []) = is_user m
ends_with_user (m ∷ next ∷ ms) = ends_with_user (next ∷ ms)

-- The tool calls of an assistant message; a user message is passed over.
abbrev pub calls : Message → List String
calls m = if is_assistant m then call_ids m.content else []

abbrev pub followed_by_user : List Message → Bool
followed_by_user [] = false
followed_by_user (next ∷ rest) = is_user next

-- What the first pass puts behind a message, given its tool calls and the messages that follow:
-- a user message with all results where nothing answers, and the number of repairs.
abbrev pub gap : List String → List Message → List Message × ℕ
gap [] rest = ([], 0)
gap (id ∷ ids) rest =
    if followed_by_user rest
    then ([], 0)
    else (user_message (map interrupted_result (id ∷ ids)) ∷ [], length (id ∷ ids))

-- The first pass: the new transcript and `repairsNeeded`.
unfoldable pub insert_results : List Message → List Message × ℕ
insert_results [] = ([], 0)
insert_results (m ∷ rest) =
    let done = insert_results rest in
    (m ∷ ((gap (calls m) rest).0 ++ done.0), (gap (calls m) rest).1 + done.1)

-- One round of the second pass, on `messages[i]` and `messages[i+1]`: the latter with the missing
-- results at its head, and their number.
unfoldable pub fill : Message → Message → Message × ℕ
fill m next =
    let missing = without (answer_ids next.content) (call_ids m.content) in
    if is_assistant m && is_user next
    then (record next { content = map interrupted_result missing ++ next.content }, length missing)
    else (next, 0)

unfoldable pub fill_rest : Message → List Message → List Message × ℕ
fill_rest m [] = ([], 0)
fill_rest m (next ∷ rest) =
    let filled = fill m next in
    let done = fill_rest filled.0 rest in (filled.0 ∷ done.0, filled.1 + done.1)

unfoldable pub repair_missing_tool_results : List Message → List Message × ℕ
repair_missing_tool_results [] = ([], 0)
repair_missing_tool_results (m ∷ rest) = let done = fill_rest m rest in (m ∷ done.0, done.1)

unfoldable pub repair_dangling_tool_use : List Message → List Message × ℕ
repair_dangling_tool_use messages =
    let repaired = insert_results messages in
    let extra = repair_missing_tool_results repaired.0 in (extra.0, repaired.1 + extra.1)

-- How `RepairAlternation` joins a message to the one before it.
pub data Join : Type 0 where
  merge pad keep : Join

abbrev pub join : Role → Role → Join
join user user = merge
join user assistant = keep
join assistant user = keep
join assistant assistant = pad

abbrev pub continued : Message
continued = user_message (text "[continued]" ∷ [])

-- The loop, with the last message of `fixed` held back.
unfoldable pub alternate : Message → List Message → List Message
alternate prev [] = prev ∷ []
alternate prev (curr ∷ rest) = elim (join prev.role curr.role) [
  | merge ↦ alternate (record prev { content = prev.content ++ curr.content }) rest
  | pad ↦ prev ∷ continued ∷ alternate curr rest
  | keep ↦ prev ∷ alternate curr rest
]

unfoldable pub repair_alternation : List Message → List Message
unfolding alternate
repair_alternation [] = []
repair_alternation (m ∷ rest) = alternate m rest

abbrev pub is_empty_text : Block → Bool
is_empty_text (text s) = str_eq s ""
is_empty_text (tool_use u) = false
is_empty_text (tool_result r) = false
is_empty_text (thinking s) = false
is_empty_text (redacted_thinking s) = false
is_empty_text (other s) = false

unfoldable pub drop_empty_text : List Block → List Block
drop_empty_text [] = []
drop_empty_text (b ∷ bs) =
    let kept = drop_empty_text bs in if is_empty_text b then kept else b ∷ kept

-- A message goes into the result unless its filtered content is empty.
abbrev pub unless_empty : Message → List Block → List Message → List Message
unless_empty m [] rest = rest
unless_empty m (b ∷ bs) rest = record m { content = b ∷ bs } ∷ rest

unfoldable pub repair_empty_content : List Message → List Message
unfolding drop_empty_text
repair_empty_content [] = []
repair_empty_content (m ∷ rest) =
    unless_empty m (drop_empty_text m.content) (repair_empty_content rest)

abbrev pub is_thinking : Block → Bool
is_thinking (thinking s) = true
is_thinking (redacted_thinking s) = true
is_thinking (text s) = false
is_thinking (tool_use u) = false
is_thinking (tool_result r) = false
is_thinking (other s) = false

unfoldable pub drop_thinking : List Block → List Block
drop_thinking [] = []
drop_thinking (b ∷ bs) = let kept = drop_thinking bs in if is_thinking b then kept else b ∷ kept

abbrev pub or_placeholder : List Block → List Block
or_placeholder [] = text "[thinking redacted]" ∷ []
or_placeholder (b ∷ bs) = b ∷ bs

unfoldable pub repair_thinking_signatures : List Message → List Message
unfolding drop_thinking
repair_thinking_signatures [] = []
repair_thinking_signatures (m ∷ rest) =
    (if is_assistant m then record m { content = or_placeholder (drop_thinking m.content) } else m)
    ∷ repair_thinking_signatures rest
