-- ===== src/TurnParts.antt =====
-- agent/agent.go and agent/agent_run.go: what a turn of the request loop is made of, and how it changes a
-- conversation. The parts of a request that no decision reads (model, system prompt, cache breakpoints) are
-- left out.
use Prim.Native.String
use inber.Prelude.{
  ℕ, zero, suc, ◌+◌, ◌-◌, ◌/◌, String, List, [], ◌∷◌, ◌++◌, Option, none, some, Bool, true, false,
  not, ◌||◌, ◌&&◌, str_eq, length, map, leb, ltb, ◌==◌, if◌then◌else◌,
}
use inber.Prelude.Int.{ℤ, pos, ltb_ℤ, ◌+ℤ◌}
pub use inber.Repair.{ends_with_user}
use inber.Message.{
  Role, user, assistant, Block, text, tool_use, tool_result, thinking, redacted_thinking, other,
  result_text, Message, user_message, assistant_message,
}
use inber.Repair.{is_user}
use inber.Transcript.{join}
use inber.Summary.{decimal}
use inber.ReadCache.{ReadCache}
use inber.Execution.{Agent, ToolUseBlock, ToolResultBlock, Progress, execute_tools}
use inber.ApiError.{is_context_length_error}
pub mod Answering

abbrev pub max_api_calls_per_turn : ℕ
max_api_calls_per_turn = 50

pub record Usage : Type 0 where
  pub input_tokens : ℤ
  pub output_tokens : ℤ
  pub cache_creation_tokens : ℤ
  pub cache_read_tokens : ℤ

pub record ApiCallUsage : Type 0 where
  pub usage : Usage
  pub tools_withheld : Bool

pub record TurnResult : Type 0 where
  pub text : String
  pub thinking : String
  pub tool_calls : ℕ
  pub total : Usage
  pub api_calls : List ApiCallUsage
  pub incomplete : Bool

abbrev pub no_usage : Usage
no_usage = record {
  input_tokens = pos 0;
  output_tokens = pos 0;
  cache_creation_tokens = pos 0;
  cache_read_tokens = pos 0;
}

abbrev pub empty_result : TurnResult
empty_result = record {
  text = "";
  thinking = "";
  tool_calls = 0;
  total = no_usage;
  api_calls = [];
  incomplete = false;
}

pub record Response : Type 0 where
  pub stop_reason : String
  pub content : List Block
  pub usage : Usage

pub record Request : Type 0 where
  pub messages : List Message
  pub sends_tools : Bool

-- What a call of the provider comes to; a stream that breaks off leaves what it delivered.
pub data Completion : Type 0 where
  completed : Response → Completion
  broken : Option Response → String → Completion

-- The context, the hooks and the provider, on a state `S`. `before_request` gives the messages that the
-- caller would rather send, and the tokens that this frees; `unconvertible` is what the SDK cannot take.
pub record Surroundings (S : Type 0) : Type 0 where
  pub context_error : S → Option String
  pub inject_check : S → S × List String
  pub limit_check : TurnResult → S → S × Option String
  pub has_before_request : Bool
  pub context_window : ℕ
  pub before_request : List Message → ℕ → S → S × List Message × ℤ
  pub first_call : Request → S → S × Completion
  pub retry_call : Request → S → S × Completion
  pub unconvertible : Response → Option String

pub record Turn (S W : Type 0) : Type 0 where
  pub messages : List Message
  pub result : TurnResult
  pub volatile_context : String
  pub cache : ReadCache
  pub world : W
  pub state : S
  pub requests : ℕ  -- calls of the provider so far, retries included

-- How a turn goes on, or ends.
pub data Course (S W : Type 0) : Type 0 where
  again : Turn S W → Course S W
  finished : Turn S W → Course S W
  stopped : Turn S W → String → Course S W

-- `(*messages)[len-1]`, rewritten.
unfoldable pub on_last : (Message → Message) → List Message → List Message
on_last f [] = []
on_last f (m ∷ []) = f m ∷ []
on_last f (m ∷ next ∷ ms) = m ∷ on_last f (next ∷ ms)

abbrev pub with_blocks : List Block → Message → Message
with_blocks blocks m = record m { content = m.content ++ blocks }

unfoldable pub append_to_last : List Block → List Message → List Message
unfolding on_last
append_to_last blocks ms = on_last (with_blocks blocks) ms

abbrev pub injected_block : String → Block
injected_block s = text (String.◌++◌ "\n\n[New message from user while you were working]\n" s)

abbrev pub limit_block : String → Block
limit_block reason = text (
    String.◌++◌ "\n\n[BUDGET LIMIT REACHED] " (
      String.◌++◌ reason
        "\n\nYou must stop making tool calls. Summarize your progress:\n1. What you've accomplished so far\n2. What remains to be done\n3. Any issues or blockers encountered\nKeep it concise."))

abbrev pub has_result : List Block → Bool
has_result [] = false
has_result (tool_result r ∷ bs) = true
has_result (text s ∷ bs) = has_result bs
has_result (tool_use u ∷ bs) = has_result bs
has_result (thinking s ∷ bs) = has_result bs
has_result (redacted_thinking s ∷ bs) = has_result bs
has_result (other s ∷ bs) = has_result bs

-- A block put behind the last tool result, or in front where there is none.
unfoldable pub insert_after_results : Block → List Block → List Block
insert_after_results new [] = new ∷ []
insert_after_results new (b ∷ bs) =
    let rest = insert_after_results new bs in if has_result (b ∷ bs) then b ∷ rest else new ∷ b ∷ bs

abbrev pub with_inserted : Block → Message → Message
with_inserted new m = record m { content = insert_after_results new m.content }

-- The volatile context in the last message, which is the user's.
unfoldable pub insert_in_last : Block → List Message → List Message
unfolding on_last insert_after_results
insert_in_last new ms = on_last (with_inserted new) ms

unfoldable pub prune_did_something : List Message → List Message → ℤ → Bool
prune_did_something before after tokens_freed =
    ltb_ℤ (pos 0) tokens_freed || ltb (length after) (length before)

abbrev pub tool_uses : List Block → List ToolUseBlock
tool_uses [] = []
tool_uses (tool_use u ∷ bs) = record { id = u.id; name = u.name; input = u.input } ∷ tool_uses bs
tool_uses (text s ∷ bs) = tool_uses bs
tool_uses (tool_result r ∷ bs) = tool_uses bs
tool_uses (thinking s ∷ bs) = tool_uses bs
tool_uses (redacted_thinking s ∷ bs) = tool_uses bs
tool_uses (other s ∷ bs) = tool_uses bs

abbrev pub text_of : List Block → String
text_of [] = ""
text_of (text s ∷ bs) = String.◌++◌ s (text_of bs)
text_of (tool_use u ∷ bs) = text_of bs
text_of (tool_result r ∷ bs) = text_of bs
text_of (thinking s ∷ bs) = text_of bs
text_of (redacted_thinking s ∷ bs) = text_of bs
text_of (other s ∷ bs) = text_of bs

abbrev thinking_of : List Block → String
thinking_of [] = ""
thinking_of (thinking s ∷ bs) = String.◌++◌ s (thinking_of bs)
thinking_of (text s ∷ bs) = thinking_of bs
thinking_of (tool_use u ∷ bs) = thinking_of bs
thinking_of (tool_result r ∷ bs) = thinking_of bs
thinking_of (redacted_thinking s ∷ bs) = thinking_of bs
thinking_of (other s ∷ bs) = thinking_of bs

unfoldable pub delivered_text : Option Response → String
delivered_text none = ""
delivered_text (some response) = text_of response.content

abbrev pub result_block : ToolResultBlock → Block
result_block r =
    tool_result (record {
      tool_use_id = r.id;
      is_error = some r.is_error;
      content = result_text r.output ∷ [];
    })

-- The message that answers a response's calls, with what the hooks after a write had to say.
unfoldable pub answering : List ToolResultBlock → List String → Message
unfolding join
answering results [] = user_message (map result_block results)
answering results (first ∷ more) = user_message (
    map result_block results
    ++ text (String.◌++◌ "[system: post-write hook]\n" (join "\n" (first ∷ more))) ∷ [])

abbrev add_positive : ℤ → ℤ → ℤ
add_positive total more = if ltb_ℤ (pos 0) more then total +ℤ more else total

unfoldable pub process_response : Response → Bool → TurnResult → TurnResult
process_response response tools_withheld result = record result {
  thinking = String.◌++◌ result.thinking (thinking_of response.content);
  total = record {
    input_tokens = result.total.input_tokens +ℤ response.usage.input_tokens;
    output_tokens = result.total.output_tokens +ℤ response.usage.output_tokens;
    cache_creation_tokens =
        add_positive result.total.cache_creation_tokens response.usage.cache_creation_tokens;
    cache_read_tokens =
        add_positive result.total.cache_read_tokens response.usage.cache_read_tokens;
  };
  api_calls =
      result.api_calls ++ record { usage = response.usage; tools_withheld = tools_withheld } ∷ [];
}
