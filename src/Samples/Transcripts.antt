-- ===== src/Samples/Transcripts.antt =====
-- Interrupted conversations, repaired.
use inber.Prelude.{
  String, ◌≡◌, refl, List, [], ◌∷◌, Option, none, some, false, str_eq, without, if◌then◌else◌,
}
use inber.Message.{
  Block, text, tool_use, tool_result, thinking, result_text, Message, user_message,
  assistant_message,
}
use inber.Repair.{
  repair_dangling_tool_use, repair_alternation, repair_empty_content, interrupted_result, continued,
  insert_results, repair_missing_tool_results, fill_rest, fill,
}
use inber.Repair.Answered.{Answered, repair_dangling_tool_use-Answered}
use inber.Repair.Alternation.{Alternates, repair_alternation-Alternates}
use inber.ToolId.{sanitize}
use inber.Resume.{Entry, Kind, from_user, call, group, load_messages, loaded, read_entries, advance}
use inber.Resume.Accepted.{Accepted, load_messages-Accepted}

abbrev pub call_of : String → Block
call_of id = tool_use (record { id = id; name = "shell_commands"; input = "{}" })

abbrev pub result_of : String → Block
result_of id =
    tool_result
      (record { tool_use_id = id; is_error = some false; content = result_text "ok" ∷ [] })

-- Two calls of which one was answered, then a call that the session died on.
abbrev interrupted : List Message
interrupted =
    user_message (text "go" ∷ [])
    ∷ assistant_message (thinking "hm" ∷ call_of "a" ∷ call_of "b" ∷ [])
    ∷ user_message (result_of "b" ∷ text "" ∷ [])
    ∷ assistant_message (call_of "c" ∷ [])
    ∷ []

abbrev pub mended : List Message
mended =
    user_message (text "go" ∷ [])
    ∷ assistant_message (thinking "hm" ∷ call_of "a" ∷ call_of "b" ∷ [])
    ∷ user_message (interrupted_result "a" ∷ result_of "b" ∷ text "" ∷ [])
    ∷ assistant_message (call_of "c" ∷ [])
    ∷ user_message (interrupted_result "c" ∷ [])
    ∷ []

repair_run : repair_dangling_tool_use interrupted ≡ (mended, 2)
unfolding repair_dangling_tool_use insert_results repair_missing_tool_results fill_rest fill without
repair_run = refl

repair_dangling_tool_use-Answered_example : Answered (repair_dangling_tool_use interrupted).0
repair_dangling_tool_use-Answered_example = repair_dangling_tool_use-Answered interrupted

pub mended-Answered : Answered mended
mended-Answered = (tt, ((refl, (refl, tt)), (tt, ((refl, tt), (tt, tt)))))

-- Two messages of the user and two of the assistant in a row.
abbrev pub doubled : List Message
doubled =
    user_message (text "a" ∷ [])
    ∷ user_message (text "b" ∷ [])
    ∷ assistant_message (text "c" ∷ [])
    ∷ assistant_message (text "d" ∷ [])
    ∷ []

abbrev single : List Message
single =
    user_message (text "a" ∷ text "b" ∷ [])
    ∷ assistant_message (text "c" ∷ [])
    ∷ continued
    ∷ assistant_message (text "d" ∷ [])
    ∷ []

alternation_run : repair_alternation doubled ≡ single
unfolding repair_alternation
alternation_run = refl

repair_alternation-Alternates_example : Alternates (repair_alternation doubled)
repair_alternation-Alternates_example = repair_alternation-Alternates doubled

abbrev entry : String → String → String → Entry
entry role content id = record {
  role = role;
  content = content;
  tool_name = "deploy";
  tool_id = id;
  tool_input = "{}";
  is_error = false;
}

-- A decoder that knows four lines.
decode : String → Option Entry
decode line =
    if str_eq line "u"
    then some (entry "user" "go" "")
    else if str_eq line "a"
    then some (entry "assistant" "" "")
    else if str_eq line "c"
    then some (entry "tool_call" "" "x.1")
    else if str_eq line "s"
    then some (entry "system" "started" "")
    else none

abbrev log : List String
log = "s" ∷ "u" ∷ "a" ∷ "c" ∷ "broken" ∷ []

load_run :
    load_messages decode (some (record { lines = log; broken = false }))
    ≡ loaded (
        user_message (text "go" ∷ [])
        ∷ assistant_message (tool_use (record { id = "x_1"; name = "deploy"; input = "{}" }) ∷ [])
        ∷ user_message (interrupted_result "x_1" ∷ [])
        ∷ [])
unfolding decode load_messages read_entries group advance sanitize repair_empty_content
    repair_dangling_tool_use insert_results repair_missing_tool_results fill_rest fill without
    repair_alternation
load_run = refl

load_messages-Accepted_example :
    (ms : List Message) × (load_messages decode (some (record { lines = log; broken = false }))
      ≡ loaded ms)
    × Accepted ms
load_messages-Accepted_example = load_messages-Accepted decode log

abbrev log_entries : List (Kind × Entry)
log_entries = (from_user, entry "user" "go" "") ∷ (call, entry "tool_call" "" "x") ∷ []
