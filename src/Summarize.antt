-- ===== src/Summarize.antt =====
-- conversation/summarize.go and summarize_config.go: older turns exchanged for a summary.
use Prim.Native.String
use inber.Prelude.{
  ℕ, zero, suc, String, List, [], ◌∷◌, Option, none, some, Bool, true, false, length, take, drop,
  str_eq, if◌then◌else◌, ◌&&◌,
}
use inber.Prelude.Int.{ℤ, pos, leb_ℤ, ltb_ℤ}
use inber.Message.{text, Message, user_message, assistant_message}
use inber.Turns.{find_turn_boundary, count_turns, strip_orphaned_tool_results, fix_alternation}
use inber.Transcript.{messages_to_text}
use inber.Summary.{decimal, Memory, Services, Generated, written, failed, generate_summary}
pub mod Exchange
pub mod Archive

pub record SummarizeConfig : Type 0 where
  pub trigger_messages : ℤ
  pub keep_recent_turns : ℤ
  pub model : String
  pub max_summary_tokens : ℤ
  pub save_to_memory : Bool
  pub archive_is_recallable : Bool

pub data AgentRole : Type 0 where
  orchestrator : AgentRole
  coder : AgentRole
  other_role : AgentRole

pub record SummarizeResult : Type 0 where
  pub summarized : Bool
  pub summarized_turns : ℕ
  pub kept_messages : ℕ
  pub summary_tokens : ℕ
  pub memory_saved : Bool
  pub memory_id : String
  pub summary_was_cut_off_at_token_limit : Bool

abbrev pub default_summarize_config : AgentRole → SummarizeConfig
default_summarize_config orchestrator = record {
  trigger_messages = pos 80;
  keep_recent_turns = pos 15;
  model = "";
  max_summary_tokens = pos 1024;
  save_to_memory = true;
  archive_is_recallable = false;
}
default_summarize_config coder = record {
  trigger_messages = pos 40;
  keep_recent_turns = pos 8;
  model = "";
  max_summary_tokens = pos 800;
  save_to_memory = true;
  archive_is_recallable = false;
}
default_summarize_config other_role = record {
  trigger_messages = pos 60;
  keep_recent_turns = pos 12;
  model = "";
  max_summary_tokens = pos 1024;
  save_to_memory = true;
  archive_is_recallable = false;
}

abbrev pub conversation_archive_tags : String → List String
conversation_archive_tags session_id =
    "conversation-archive" ∷ "conversation" ∷ "history" ∷ String.◌++◌ "session:" session_id ∷ []

abbrev pub memory_id_of : String → String → String
memory_id_of session_id fresh =
    String.◌++◌ "conversation-summary:" (String.◌++◌ session_id (String.◌++◌ ":" fresh))

-- The row that keeps the turns that the summary replaces.
abbrev pub archive_row : Services → String → ℕ → String → Memory
archive_row services session_id turns old_text = record {
  id = memory_id_of session_id services.new_id;
  content = old_text;
  summary = String.◌++◌ "Full conversation history (" (
      String.◌++◌ (decimal turns) (
        String.◌++◌ " turns, ~" (
          String.◌++◌ (decimal (services.estimate_tokens old_text))
            (String.◌++◌ " tokens) from session " session_id))));
  tags = conversation_archive_tags session_id;
  source = "summarization";
}

abbrev pub stored : Memory → Option String → List Memory
stored row none = row ∷ []
stored row (some e) = []

-- The rows that the store took.
abbrev pub offer : Option (Memory → Option String) → SummarizeConfig → Memory → List Memory
offer none cfg row = []
offer (some save) cfg row = if cfg.save_to_memory then stored row (save row) else []

unfoldable pub save_archive : Services → SummarizeConfig → Memory → List Memory
save_archive services cfg row = offer services.mem_store cfg row

abbrev summary_end : String
summary_end = "[End of summary. Recent conversation follows.]"

unfoldable pub summary_footer : SummarizeResult → SummarizeConfig → String
summary_footer result cfg =
    if result.memory_saved && cfg.archive_is_recallable
    then String.◌++◌ "[The " (
        String.◌++◌ (decimal result.summarized_turns) (
          String.◌++◌ " condensed turns are archived verbatim. memory_expand(id=\""
            (String.◌++◌ result.memory_id (String.◌++◌ "\") returns them.]\n" summary_end))))
    else summary_end

abbrev pub summary_block : String → SummarizeResult → SummarizeConfig → String
summary_block summary result cfg = String.◌++◌ "[Conversation Summary — " (
    String.◌++◌ (decimal result.summarized_turns) (
      String.◌++◌ " earlier turns condensed]\n\n"
        (String.◌++◌ summary (String.◌++◌ "\n\n" (summary_footer result cfg)))))

abbrev pub acknowledgment : Message
acknowledgment = assistant_message (
    text
      "Understood. I have the conversation context from the summary above. Continuing from where we left off."
    ∷ [])

-- The messages returned: the summary, its acknowledgment and the recent messages, mended.
unfoldable pub exchange : String → List Message → List Message
exchange block recent =
    fix_alternation
      (user_message (text block ∷ []) ∷ acknowledgment ∷ strip_orphaned_tool_results recent)

-- What a call returns, and the rows that the store took on the way.
pub record Outcome : Type 0 where
  pub messages : List Message
  pub result : SummarizeResult
  pub error : Option String
  pub saved : List Memory

abbrev pub untouched : List Message → SummarizeResult
untouched ms = record {
  summarized = false;
  summarized_turns = 0;
  kept_messages = length ms;
  summary_tokens = 0;
  memory_saved = false;
  memory_id = "";
  summary_was_cut_off_at_token_limit = false;
}

abbrev pub with_saved : List Memory → SummarizeResult → SummarizeResult
with_saved [] result = result
with_saved (row ∷ rows) result = record result { memory_saved = true; memory_id = row.id }

unfoldable pub complete :
    Services → List Message → ℕ → String → SummarizeConfig → String → Bool → Outcome
complete services ms keep_from session_id cfg summary cut_off =
    let old_text = messages_to_text (take keep_from ms) in
    let turns = count_turns (take keep_from ms) in
    let rows = save_archive services cfg (archive_row services session_id turns old_text) in
    let result = with_saved rows (record (untouched ms) {
      summarized = true;
      summarized_turns = turns;
      summary_tokens = services.estimate_tokens summary;
      summary_was_cut_off_at_token_limit = cut_off;
    }) in
    let messages = exchange (summary_block summary result cfg) (drop keep_from ms) in
    record {
      messages = messages;
      result = record result { kept_messages = length messages };
      error = none;
      saved = rows;
    }

abbrev pub nothing_done : List Message → Outcome
nothing_done ms = record { messages = ms; result = untouched ms; error = none; saved = [] }

abbrev pub summary_model : SummarizeConfig → String → String
summary_model cfg model = if str_eq cfg.model "" then model else cfg.model

abbrev pub should_summarize : List Message → SummarizeConfig → Bool
should_summarize ms cfg = ltb_ℤ cfg.trigger_messages (pos (length ms))

-- What follows from the answer of the summarizing model.
unfoldable pub conclude :
    Services → List Message → ℕ → String → SummarizeConfig → Generated → Outcome
conclude services ms keep_from session_id cfg (failed e) =
    let turns = count_turns (take keep_from ms) in
    record (nothing_done ms) {
      result = record (untouched ms) { summarized_turns = turns };
      error = some (
          String.◌++◌ "summarizing "
            (String.◌++◌ (decimal turns) (String.◌++◌ " earlier turns: " e)));
    }
conclude services ms keep_from session_id cfg (written summary cut_off) =
    complete services ms keep_from session_id cfg summary cut_off

unfoldable pub summarize_from :
    Services → List Message → String → SummarizeConfig → String → ℕ → Outcome
summarize_from services ms session_id cfg model zero = nothing_done ms
summarize_from services ms session_id cfg model (suc k) =
    conclude services ms (suc k) session_id cfg (
      generate_summary services (messages_to_text (take (suc k) ms)) (summary_model cfg model)
        cfg.max_summary_tokens)

unfoldable pub summarize_conversation :
    Services → List Message → String → SummarizeConfig → String → Outcome
summarize_conversation services ms session_id cfg model =
    if leb_ℤ (pos (length ms)) cfg.trigger_messages
    then nothing_done ms
    else summarize_from services ms session_id cfg model
        (find_turn_boundary ms cfg.keep_recent_turns)
