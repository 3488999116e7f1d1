-- ===== src/Resume.antt =====
-- session/resume.go, `LoadMessages`: a conversation rebuilt from a session's log. The file system
-- and the JSON decoder are outside: the scanner's outcome and the decoder are arguments.
use inber.Prelude.{
  String, List, [], ◌∷◌, ◌++◌, Option, none, some, Bool, true, false, if◌then◌else◌, str_eq,
}
use inber.Message.{
  Block, text, tool_use, tool_result, result_text, Message, user_message, assistant_message,
}
use inber.Repair.{repair_empty_content, repair_dangling_tool_use, repair_alternation}
use inber.ToolId.{sanitize}
pub mod Content
pub mod Accepted

-- The fields of session/session.go's `Entry` that are read here.
pub record Entry : Type 0 where
  pub role : String
  pub content : String
  pub tool_name : String
  pub tool_id : String
  pub tool_input : String
  pub is_error : Bool

pub data Kind : Type 0 where
  from_user from_assistant call answer : Kind

-- The roles that are taken over; a line of any other role is passed over.
abbrev pub kind_of : String → Option Kind
kind_of role =
    if str_eq role "user"
    then some from_user
    else if str_eq role "assistant"
    then some from_assistant
    else if str_eq role "tool_call"
    then some call
    else if str_eq role "tool_result"
    then some answer
    else none

-- The entry of a line that decodes and has such a role.
abbrev pub kept_entry : Option Entry → List (Kind × Entry)
kept_entry none = []
kept_entry (some e) = elim (kind_of e.role) [ none ↦ [] | some k ↦ (k, e) ∷ [] ]

unfoldable pub read_entries : (String → Option Entry) → List String → List (Kind × Entry)
read_entries decode [] = []
read_entries decode (line ∷ lines) = kept_entry (decode line) ++ read_entries decode lines

-- The message that is being collected: what the next tool call or tool result may still join.
pub data Open : Type 0 where
  nothing : Open
  calling : List Block → Open
  answering : List Block → Open

abbrev pub close : Open → List Message
close nothing = []
close (calling blocks) = assistant_message blocks ∷ []
close (answering blocks) = user_message blocks ∷ []

abbrev pub call_block : Entry → Block
call_block e =
    tool_use (record { id = sanitize e.tool_id; name = e.tool_name; input = e.tool_input })

abbrev pub answer_block : Entry → Block
answer_block e = tool_result (record {
  tool_use_id = sanitize e.tool_id;
  is_error = some e.is_error;
  content = result_text e.content ∷ [];
})

abbrev pub prose : Entry → List Block
prose e = if str_eq e.content "" then [] else text e.content ∷ []

-- One entry: the messages that it completes, and what is open afterwards.
unfoldable pub advance : Open → Kind → Entry → List Message × Open
advance open_message from_user e =
    (close open_message ++ user_message (text e.content ∷ []) ∷ [], nothing)
advance open_message from_assistant e = (close open_message, calling (prose e))
advance nothing call e = ([], calling (call_block e ∷ []))
advance (calling blocks) call e = ([], calling (blocks ++ call_block e ∷ []))
advance (answering blocks) call e = (user_message blocks ∷ [], calling (call_block e ∷ []))
advance nothing answer e = ([], answering (answer_block e ∷ []))
advance (calling blocks) answer e = (assistant_message blocks ∷ [], answering (answer_block e ∷ []))
advance (answering blocks) answer e = ([], answering (blocks ++ answer_block e ∷ []))

unfoldable pub group : Open → List (Kind × Entry) → List Message
group open_message [] = close open_message
group open_message ((k, e) ∷ rest) =
    (advance open_message k e).0 ++ group (advance open_message k e).1 rest

pub data LoadError : Type 0 where
  open_failed scan_failed : LoadError

pub data Loaded : Type 0 where
  loaded : List Message → Loaded
  failed : LoadError → Loaded

-- What the scanner gives: the lines it read, and whether it stopped on an error.
pub record Scan : Type 0 where
  pub lines : List String
  pub broken : Bool

abbrev pub repaired : List Message → List Message
repaired messages = repair_alternation (repair_dangling_tool_use (repair_empty_content messages)).0

-- `none` is a log that cannot be opened.
unfoldable pub load_messages : (String → Option Entry) → Option Scan → Loaded
load_messages decode none = failed open_failed
load_messages decode (some scan) =
    if scan.broken
    then failed scan_failed
    else loaded (repaired (group nothing (read_entries decode scan.lines)))

-- `LoadMessagesFromDir`: the snapshot of messages.json is taken as it is, where one can be read.
unfoldable pub load_messages_from_dir :
    (String → Option Entry) → Option (List Message) → Option Scan → Loaded
load_messages_from_dir decode (some messages) scan = loaded messages
load_messages_from_dir decode none scan = load_messages decode scan
