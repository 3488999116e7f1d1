-- ===== src/Turns.antt =====
-- conversation/message_utils.go: turns of a conversation, and where to split it.
use inber.Prelude.{
  ℕ, zero, suc, ◌+◌, String, List, [], ◌∷◌, ◌++◌, Option, none, some, Bool, true, false, length,
  take, drop, contains, if◌then◌else◌, get_elem?, reverse,
}
use inber.Prelude.Int.{ℤ, pos, leb_ℤ}
use inber.Message.{
  Role, user, assistant, Block, text, tool_use, tool_result, thinking, redacted_thinking, other,
  Message, call_ids, answer_id, is_result, user_message,
}
use inber.Repair.{is_assistant, is_user, calls, join, merge, pad, keep, continued}
pub mod Boundary
pub mod Pairs
pub mod Orphans
pub mod Alternation

abbrev pub has_other_block : List Block → Bool
has_other_block [] = false
has_other_block (b ∷ bs) = if is_result b then has_other_block bs else true

-- An empty user message starts a turn; a batch of tool results does not.
abbrev pub starts_with : List Block → Bool
starts_with [] = true
starts_with (b ∷ bs) = has_other_block (b ∷ bs)

unfoldable pub starts_user_turn : Message → Bool
starts_user_turn m = if is_user m then starts_with m.content else false

unfoldable pub count_turns : List Message → ℕ
count_turns [] = 0
count_turns (m ∷ ms) = (if starts_user_turn m then 1 else 0) + count_turns ms

-- The ids of all tool calls of assistant messages.
unfoldable pub collect_tool_use_ids : List Message → List String
collect_tool_use_ids [] = []
collect_tool_use_ids (m ∷ ms) = calls m ++ collect_tool_use_ids ms

abbrev pub removed_answers : List String → List Block → List String
removed_answers removed [] = []
removed_answers removed (b ∷ bs) = elim (answer_id b) [
  | [] ↦ removed_answers removed bs
  | id ∷ _ ↦
      if contains removed id then id ∷ removed_answers removed bs else removed_answers removed bs
]

unfoldable pub find_orphaned_tool_results : List Message → List String → List String
find_orphaned_tool_results [] removed = []
find_orphaned_tool_results (m ∷ ms) removed =
    (if is_user m then removed_answers removed m.content else [])
    ++ find_orphaned_tool_results ms removed

unfoldable pub starts_turn_at : List Message → ℕ → Bool
starts_turn_at ms i = elim (get_elem? ms i) [ none ↦ false | some m ↦ starts_user_turn m ]

-- The first loop: the messages below `i` are still to be looked at, from the end.
unfoldable pub scan_turns : List Message → ℤ → ℕ → ℕ → ℕ
scan_turns ms keep_turns zero turns = 0
scan_turns ms keep_turns (suc i) turns = elim (starts_turn_at ms i) [
  | false ↦ scan_turns ms keep_turns i turns
  | true ↦ elim (leb_ℤ keep_turns (pos (suc turns))) [
    | true ↦ i
    | false ↦ scan_turns ms keep_turns i (suc turns)
  ]
]

-- The inner loop: back to the start of a turn, or to the front.
unfoldable pub back_up : List Message → ℕ → ℕ
back_up ms zero = zero
back_up ms (suc s) = elim (starts_turn_at ms (suc s)) [ true ↦ suc s | false ↦ back_up ms s ]

abbrev pub orphans_at : List Message → ℕ → List String
orphans_at ms split =
    find_orphaned_tool_results (drop split ms) (collect_tool_use_ids (take split ms))

-- The second loop. Each round moves the split back, so fuel above the split is enough.
unfoldable pub settle : ℕ → List Message → ℕ → ℕ
settle zero ms split = split
settle (suc fuel) ms split = elim (orphans_at ms split) [
  | [] ↦ split
  | _ ∷ _ ↦ elim split [ zero ↦ zero | suc s ↦ settle fuel ms (back_up ms s) ]
]

unfoldable pub find_turn_boundary : List Message → ℤ → ℕ
find_turn_boundary [] keep_turns = 0
find_turn_boundary (m ∷ ms) keep_turns =
    let split = scan_turns (m ∷ ms) keep_turns (length (m ∷ ms)) 0 in
    settle (suc split) (m ∷ ms) split

-- `stripOrphanedToolResults`.
abbrev pub keeps_block : List String → Block → Bool
keeps_block existing (tool_result r) = contains existing r.tool_use_id
keeps_block existing (text s) = true
keeps_block existing (tool_use u) = true
keeps_block existing (thinking s) = true
keeps_block existing (redacted_thinking s) = true
keeps_block existing (other s) = true

unfoldable pub keep_blocks : List String → List Block → List Block
keep_blocks existing [] = []
keep_blocks existing (b ∷ bs) =
    let kept = keep_blocks existing bs in if keeps_block existing b then b ∷ kept else kept

abbrev pub cleaned : Message → List Block → List Message → List Message
cleaned m [] rest = rest
cleaned m (b ∷ bs) rest = record m { content = b ∷ bs } ∷ rest

unfoldable pub strip_within : List String → List Message → List Message
strip_within existing [] = []
strip_within existing (m ∷ ms) =
    let rest = strip_within existing ms in
    if is_user m then cleaned m (keep_blocks existing m.content) rest else m ∷ rest

unfoldable pub strip_orphaned_tool_results : List Message → List Message
strip_orphaned_tool_results ms = strip_within (collect_tool_use_ids ms) ms

-- `fixAlternation`: the messages of `fixed`, latest first, and those to come.
unfoldable pub fix_loop : List Message → List Message → List Message
fix_loop fixed [] = fixed
fix_loop [] (curr ∷ rest) = fix_loop (curr ∷ []) rest
fix_loop (prev ∷ before) (curr ∷ rest) = elim (join prev.role curr.role) [
  | merge ↦ fix_loop (record prev { content = prev.content ++ curr.content } ∷ before) rest
  | pad ↦ fix_loop (curr ∷ continued ∷ prev ∷ before) rest
  | keep ↦ fix_loop (curr ∷ prev ∷ before) rest
]

unfoldable pub fix_alternation : List Message → List Message
fix_alternation [] = []
fix_alternation (m ∷ rest) = reverse (fix_loop (m ∷ []) rest)
