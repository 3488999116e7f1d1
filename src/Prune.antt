-- ===== src/Prune.antt =====
-- conversation/manage_tool_pruning.go, and the loop of `ManageConversation` of conversation/manage.go
-- that applies it: how the content of a message is cut down with its age. JSON is an argument.
use Prim.Native.String
use inber.Prelude.{
  ℕ, suc, ◌+◌, String, List, [], ◌∷◌, ◌++◌, Option, none, some, Bool, true, false, ◌||◌, ◌&&◌,
  str_eq, length, leb, ltb, ◌==◌, if◌then◌else◌,
}
use inber.Prelude.Int.{pos, leb_ℤ, ltb_ℤ}
use inber.Message.{
  Role, user, assistant, Block, text, tool_use, tool_result, thinking, redacted_thinking, other,
  ToolUse, ToolResult, ResultPart, result_text, result_image, Message,
}
use inber.Repair.{is_user}
use inber.Transcript.{join, split_lines, part_texts}
use inber.Texts.{trim_space, trim_right_blanks, truncate_to_one_line, truncate_to_summary}
use inber.Summary.{decimal}
use inber.ReadCache.{entry, without_key}
use inber.ManagementConfig.{ManagementConfig}
pub mod Outline
pub mod Recent

-- The JSON of the inputs that pruning writes: `{"_summary": s}` and `{"_deduped": true}`.
pub record Marshal : Type 0 where
  pub summary_input : String → String
  pub deduped_input : String

-- A map from the ids of calls to the names of their tools; of two calls the later one is kept.
abbrev names_with : Block → List (String × String) → List (String × String)
names_with (tool_use u) names =
    if str_eq u.id "" then names else (u.id, u.name) ∷ without_key u.id names
names_with (text s) names = names
names_with (tool_result r) names = names
names_with (thinking s) names = names
names_with (redacted_thinking s) names = names
names_with (other s) names = names

unfoldable pub names_with_all : List Block → List (String × String) → List (String × String)
names_with_all [] names = names
names_with_all (b ∷ bs) names = names_with_all bs (names_with b names)

unfoldable pub names_from : List Message → List (String × String) → List (String × String)
unfolding names_with_all
names_from [] names = names
names_from (m ∷ ms) names = names_from ms (names_with_all m.content names)

unfoldable pub tool_names_by_use_id : List Message → List (String × String)
unfolding names_from
tool_names_by_use_id ms = names_from ms []

-- `toolNames[id]`, "" for an id that is not there.
abbrev named : Option String → String
named none = ""
named (some name) = name

unfoldable pub tool_name : List (String × String) → String → String
unfolding entry
tool_name names id = named (entry id names)

abbrev pub extract_tool_result_content : ToolResult → String
extract_tool_result_content r = join "\n" (part_texts r.content)

abbrev count_images : List ResultPart → ℕ
count_images [] = 0
count_images (result_text s ∷ parts) = count_images parts
count_images (result_image s ∷ parts) = suc (count_images parts)

abbrev pub count_tool_result_images : ToolResult → ℕ
count_tool_result_images r = count_images r.content

abbrev pub tool_label : String → String
tool_label name = if str_eq name "" then "tool result" else name

abbrev images_dropped : ℕ → String
images_dropped n = if n == 1 then "1 image dropped" else String.◌++◌ (decimal n) " images dropped"

abbrev pub images_clause : ℕ → String
images_clause n = if n == 0 then "" else String.◌++◌ ", " (images_dropped n)

-- `imagesDroppedNote`, the clause without its comma.
abbrev pub images_dropped_note : ℕ → String
images_dropped_note n = if n == 0 then "" else String.◌++◌ " [" (String.◌++◌ (images_dropped n) "]")

abbrev first_line : List String → String
first_line [] = ""
first_line (line ∷ lines) = line

abbrev sizes : ℕ → ℕ → String
sizes lines bytes =
    String.◌++◌ (decimal lines) (String.◌++◌ " lines, " (String.◌++◌ (decimal bytes) " bytes] "))

unfoldable pub summarize_tool_result : String → String → String
unfolding split_lines trim_right_blanks truncate_to_one_line
summarize_tool_result name content =
    let lines = split_lines content in
    trim_right_blanks (
      String.◌++◌ "[" (
        String.◌++◌ (tool_label name) (
          String.◌++◌ ": " (
            String.◌++◌ (sizes (length lines) (String.len content))
              (truncate_to_one_line 80 (first_line lines))))))

abbrev dropped_marker : String → ℕ → ℕ → String
dropped_marker name bytes images = String.◌++◌ "[" (
    String.◌++◌ (tool_label name) (
      String.◌++◌ ": dropped - too old, " (
        String.◌++◌ (decimal bytes)
          (String.◌++◌ " bytes" (String.◌++◌ (images_clause images) "]")))))

abbrev caption_marker : String → ℕ → ℕ → String → String
caption_marker name bytes images caption = String.◌++◌ "[" (
    String.◌++◌ (tool_label name) (
      String.◌++◌ ": " (
        String.◌++◌ (decimal bytes) (
          String.◌++◌ " bytes"
            (String.◌++◌ (images_clause images) (String.◌++◌ "] " (trim_space caption)))))))

-- The text that `pruneToolResult` puts in place of a result, if any.
unfoldable pub pruned_text : ManagementConfig → ℕ → String → ToolResult → Option String
unfolding summarize_tool_result
pruned_text cfg age name r =
    let content = extract_tool_result_content r in
    let images = count_tool_result_images r in
    let bytes = String.len content in
    if leb_ℤ cfg.tool_result_drop (pos age)
    then some (dropped_marker name bytes images)
    else if ltb_ℤ (pos age) cfg.tool_result_keep_full
    then none
    else if (images == 0) && (str_eq content "" || ltb bytes 100)
    then none
    else if ltb bytes 100
    then some (caption_marker name bytes images content)
    else some (String.◌++◌ (summarize_tool_result name content) (images_dropped_note images))

unfoldable pub replace_tool_result_text : ToolResult → String → Block
replace_tool_result_text r s = tool_result (record r { content = result_text s ∷ [] })

unfoldable pub replace_tool_use_input : ToolUse → String → Block
replace_tool_use_input u input = tool_use (record u { input = input })

abbrev or_replaced : ToolResult → Option String → Block × Bool
or_replaced r none = (tool_result r, false)
or_replaced r (some s) = (replace_tool_result_text r s, true)

unfoldable pub prune_tool_result : ManagementConfig → ℕ → String → ToolResult → Block × Bool
unfolding replace_tool_result_text
prune_tool_result cfg age name r = or_replaced r (pruned_text cfg age name r)

unfoldable pub truncate_tool_call : Marshal → ToolUse → Block
unfolding replace_tool_use_input
truncate_tool_call marshal u = replace_tool_use_input u (
    marshal.summary_input (String.◌++◌ u.name (String.◌++◌ ": " (truncate_to_one_line 60 u.input))))

-- The counters of `ManagementResult` that the loop raises.
pub record Tally : Type 0 where
  pub truncated_tool_calls : ℕ
  pub truncated_assistant : ℕ
  pub dropped_tool_results : ℕ

abbrev pub no_tally : Tally
no_tally = record { truncated_tool_calls = 0; truncated_assistant = 0; dropped_tool_results = 0 }

abbrev pub add_tally : Tally → Tally → Tally
add_tally a b = record {
  truncated_tool_calls = a.truncated_tool_calls + b.truncated_tool_calls;
  truncated_assistant = a.truncated_assistant + b.truncated_assistant;
  dropped_tool_results = a.dropped_tool_results + b.dropped_tool_results;
}

-- A block, whether it was pruned, and what it adds to the counters.
pub record Pruned : Type 0 where
  pub block : Block
  pub pruned : Bool
  pub tally : Tally

abbrev untouched : Block → Pruned
untouched b = record { block = b; pruned = false; tally = no_tally }

abbrev result_tally : ManagementConfig → ℕ → Bool → Tally
result_tally cfg age false = no_tally
result_tally cfg age true =
    if leb_ℤ cfg.tool_result_drop (pos age)
    then record no_tally { dropped_tool_results = 1 }
    else record no_tally { truncated_tool_calls = 1 }

unfoldable pub prune_user_block : ManagementConfig → List (String × String) → ℕ → Block → Pruned
unfolding prune_tool_result tool_name
prune_user_block cfg names age (tool_result r) =
    let done = prune_tool_result cfg age (tool_name names r.tool_use_id) r in
    record { block = done.0; pruned = done.1; tally = result_tally cfg age done.1 }
prune_user_block cfg names age (text s) = untouched (text s)
prune_user_block cfg names age (tool_use u) = untouched (tool_use u)
prune_user_block cfg names age (thinking s) = untouched (thinking s)
prune_user_block cfg names age (redacted_thinking s) = untouched (redacted_thinking s)
prune_user_block cfg names age (other s) = untouched (other s)

abbrev shortened : String → Pruned
shortened s = record {
  block = text (truncate_to_summary s);
  pruned = true;
  tally = record no_tally { truncated_assistant = 1 };
}

abbrev shortened_call : Marshal → ToolUse → Pruned
shortened_call marshal u = record {
  block = truncate_tool_call marshal u;
  pruned = true;
  tally = record no_tally { truncated_tool_calls = 1 };
}

unfoldable pub prune_assistant_block : Marshal → ManagementConfig → ℕ → Block → Pruned
unfolding truncate_tool_call
prune_assistant_block marshal cfg age (text s) =
    if ltb_ℤ cfg.assistant_truncate_after (pos age) then shortened s else untouched (text s)
prune_assistant_block marshal cfg age (tool_use u) =
    if ltb_ℤ cfg.tool_call_keep_full (pos age)
    then shortened_call marshal u
    else untouched (tool_use u)
prune_assistant_block marshal cfg age (tool_result r) = untouched (tool_result r)
prune_assistant_block marshal cfg age (thinking s) = untouched (thinking s)
prune_assistant_block marshal cfg age (redacted_thinking s) = untouched (redacted_thinking s)
prune_assistant_block marshal cfg age (other s) = untouched (other s)

-- `prunedContent`, `pruned`, and the counters.
unfoldable pub prune_blocks : (Block → Pruned) → List Block → List Block × Bool × Tally
prune_blocks f [] = ([], false, no_tally)
prune_blocks f (b ∷ bs) =
    let (content, pruned, tally) = prune_blocks f bs in
    ((f b).block ∷ content, (f b).pruned || pruned, add_tally (f b).tally tally)

abbrev pub prune_block :
    Marshal → ManagementConfig → List (String × String) → ℕ → Role → Block → Pruned
prune_block marshal cfg names age user = prune_user_block cfg names age
prune_block marshal cfg names age assistant = prune_assistant_block marshal cfg age

unfoldable pub prune_message :
    Marshal → ManagementConfig → List (String × String) → ℕ → Message → Message × Bool × Tally
unfolding prune_blocks
prune_message marshal cfg names age m =
    let (content, pruned, tally) =
      prune_blocks (prune_block marshal cfg names age m.role) m.content in
    (if pruned then record m { content = content } else m, pruned, tally)

-- The ages of messages, in messages of the user from the end, and how many of those there are:
-- `computeAges`, and the loop of `ManageConversation` that sets `messageAges`.
unfoldable pub ages_and_turns : List Message → List ℕ × ℕ
ages_and_turns [] = ([], 0)
ages_and_turns (m ∷ ms) =
    let (ages, turn) = ages_and_turns ms in (turn ∷ ages, if is_user m then suc turn else turn)

unfoldable pub compute_ages : List Message → List ℕ
unfolding ages_and_turns
compute_ages ms = (ages_and_turns ms).0
