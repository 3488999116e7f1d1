-- ===== src/RequestLoop.antt =====
-- agent/agent.go, `Run`, with `buildRequest` and `executeAPICall` of agent/agent_run.go: the loop of one turn.
-- The model's API, the hooks and the context are a state `S` with the answers they give; tools run as in
-- Execution, on a world `W`.
use Prim.Native.String
use inber.Prelude.{
  ℕ, zero, suc, ◌+◌, ◌-◌, ◌/◌, String, List, [], ◌∷◌, ◌++◌, Option, none, some, Bool, true, false,
  not, ◌||◌, ◌&&◌, str_eq, length, map, leb, ltb, ◌==◌, if◌then◌else◌,
}
use inber.Prelude.Int.{ℤ, pos, ltb_ℤ, ◌+ℤ◌}
use inber.Message.{
  Role, user, assistant, Block, text, tool_use, tool_result, thinking, redacted_thinking, other,
  result_text, Message, user_message, assistant_message,
}
use inber.Repair.{is_user}
use inber.Transcript.{join}
use inber.Summary.{decimal}
use inber.ReadCache.{ReadCache}
use inber.Execution.{Agent, ToolUseBlock, ToolResultBlock, Progress, execute_tools}
use inber.ApiError.{is_context_length_error}
use inber.TurnParts.{
  injected_block, limit_block, text_of, max_api_calls_per_turn, Usage, ApiCallUsage, TurnResult,
  empty_result, Response, Request, Completion, Surroundings, Turn, Course, on_last, with_blocks,
  append_to_last, has_result, insert_after_results, with_inserted, insert_in_last, ends_with_user,
  prune_did_something, tool_uses, delivered_text, result_block, answering, process_response,
  completed, broken, again, finished, stopped,
}
pub mod Bounded
pub mod Turning

abbrev or_text : String → TurnResult → TurnResult
or_text placeholder result =
    if str_eq result.text "" then record result { text = placeholder } else result

unfoldable pub stop_for_canceled_turn : {S W : Type 0} → String → ℕ → Turn S W → Course S W
stop_for_canceled_turn e done t =
    stopped
      (record t {
        result =
            or_text
              (String.◌++◌ "[Agent stopped: "
                (String.◌++◌ e (String.◌++◌ " after " (String.◌++◌ (decimal done) " API calls]"))))
              t.result;
      })
      e

unfoldable pub stop_for_api_call_cap : {S W : Type 0} → Turn S W → Course S W
stop_for_api_call_cap t =
    stopped
      (record t {
        result =
            or_text
              (String.◌++◌ "[Agent stopped: exceeded "
                (String.◌++◌ (decimal max_api_calls_per_turn) " API calls in one turn]"))
              t.result;
      })
      "exceeded max API calls (50)"

module _ {V S W : Type 0} (env : Surroundings S) (a : Agent V W) (has_tools : Bool) where
  -- What the user wrote meanwhile goes behind the last message.
  unfoldable pub inject : Turn S W → Turn S W
  unfolding append_to_last
  inject t =
      let (state, texts) = env.inject_check t.state in
      record t { state = state; messages = append_to_last (map injected_block texts) t.messages }

  abbrev pub limited : Turn S W → S × Option String → Turn S W × Bool
  limited t (state, none) = (record t { state = state }, false)
  limited t (state, some reason) = (
    record t { state = state; messages = append_to_last (limit_block reason ∷ []) t.messages },
    true,
  )

  -- The checks before each call but the first, and whether a summary is forced.
  unfoldable pub check_between : ℕ → Turn S W → Turn S W × Bool
  unfolding inject append_to_last
  check_between api_calls t =
      let injected = inject t in
      if ltb 1 api_calls
      then limited injected (env.limit_check injected.result injected.state)
      else (t, false)

  unfoldable pub add_volatile : Turn S W → Turn S W
  unfolding insert_in_last
  add_volatile t =
      if not (str_eq t.volatile_context "") && ends_with_user t.messages
      then record t {
        messages = insert_in_last (text t.volatile_context) t.messages;
        volatile_context = "";
      }
      else t

  abbrev pub guards_context : Bool
  guards_context = env.has_before_request && ltb 0 env.context_window

  -- What the caller would rather send is adopted if it frees something.
  abbrev pub adopted : Turn S W → S × List Message × ℤ → Turn S W × Bool
  adopted t (state, pruned, freed) =
      if prune_did_something t.messages pruned freed
      then (record t { state = state; messages = pruned }, true)
      else (record t { state = state }, false)

  unfoldable pub make_room : ℕ → Turn S W → Turn S W × Bool
  unfolding prune_did_something
  make_room window t = adopted t (env.before_request t.messages window t.state)

  unfoldable pub build_request : Turn S W → Turn S W
  unfolding add_volatile make_room
  build_request t =
      let filled = add_volatile t in
      if guards_context then (make_room env.context_window filled).0 else filled

  -- What a call of the API comes to, with the turn after it.
  abbrev pub Called : Type 0
  Called = Turn S W × Completion

  abbrev pub request_of : Bool → Turn S W → Request
  request_of sends_tools t = record { messages = t.messages; sends_tools = sends_tools }

  abbrev pub with_call : Turn S W → S × Completion → Called
  with_call t (state, c) = (record t { state = state; requests = suc t.requests }, c)

  -- A retry that fails gives what the first call delivered, and its own error.
  abbrev pub keep_partial : Option Response → Called → Called
  keep_partial delivered (t, completed response) = (t, completed response)
  keep_partial delivered (t, broken later e) = (t, broken delivered e)

  abbrev pub retried : Bool → Option Response → String → Turn S W × Bool → Called
  retried sends_tools delivered e (t, false) = (t, broken delivered e)
  retried sends_tools delivered e (t, true) =
      keep_partial delivered (with_call t (env.retry_call (request_of sends_tools t) t.state))

  abbrev pub retry_on_length : Bool → Called → Called
  retry_on_length sends_tools (t, completed response) = (t, completed response)
  retry_on_length sends_tools (t, broken delivered e) =
      if guards_context && is_context_length_error e
      then retried sends_tools delivered e (make_room (env.context_window / 2) t)
      else (t, broken delivered e)

  abbrev pub api_failure : String → String
  api_failure e = String.◌++◌ "api call failed: " e

  abbrev pub checked : Response → Option String → Completion
  checked response none = completed response
  checked response (some e) = broken (some response) e

  abbrev pub convertible : Called → Called
  convertible (t, completed response) = (t, checked response (env.unconvertible response))
  convertible (t, broken delivered e) = (t, broken delivered (api_failure e))

  unfoldable pub execute_api_call : Bool → Turn S W → Called
  unfolding make_room is_context_length_error
  execute_api_call sends_tools t = convertible (
      retry_on_length sends_tools (with_call t (env.first_call (request_of sends_tools t) t.state)))

  abbrev notice : String → Block
  notice e = text (String.◌++◌ "[response cut off: " (String.◌++◌ e "]"))

  -- A failed call keeps the text that the user saw.
  unfoldable pub keep_delivered : String → String → Turn S W → Turn S W
  keep_delivered delivered e t = if str_eq delivered "" then t else record t {
    messages = t.messages ++ assistant_message (text delivered ∷ notice e ∷ []) ∷ [];
    result = record t.result { text = String.◌++◌ t.result.text delivered; incomplete = true };
  }

  abbrev pub start_tools : Turn S W → Progress W
  start_tools t = record {
    cache = t.cache;
    world = t.world;
    tool_calls = 0;
    tool_results = [];
    post_injections = [];
    reports = [];
  }

  -- The calls of a response are run and answered.
  unfoldable pub run_tools : Response → Turn S W → Turn S W
  unfolding execute_tools answering
  run_tools response t =
      let done = execute_tools a (tool_uses response.content) (start_tools t) in
      record t {
        cache = done.cache;
        world = done.world;
        messages = t.messages ++ answering done.tool_results done.post_injections ∷ [];
        result = record t.result { tool_calls = t.result.tool_calls + done.tool_calls };
      }

  -- How a turn goes on after a response, by its stop reason.
  unfoldable pub after_response : Response → Turn S W → Course S W
  unfolding run_tools
  after_response response t =
      if str_eq response.stop_reason "end_turn" || str_eq response.stop_reason "max_tokens"
      then finished (record t {
        result = record t.result { text = String.◌++◌ t.result.text (text_of response.content) };
      })
      else if str_eq response.stop_reason "tool_use"
      then again (run_tools response t)
      else stopped t (String.◌++◌ "unexpected stop reason: " response.stop_reason)

  abbrev pub answered_by : Response → Bool → Turn S W → Turn S W
  answered_by response sends_tools t = record t {
    result = process_response response (has_tools && not sends_tools) t.result;
    messages = t.messages ++ assistant_message response.content ∷ [];
  }

  abbrev pub received : Bool → Called → Course S W
  received sends_tools (t, broken delivered e) =
      stopped (keep_delivered (delivered_text delivered) e t) e
  received sends_tools (t, completed response) =
      after_response response (answered_by response sends_tools t)

  abbrev pub call_api : Turn S W × Bool → Course S W
  call_api (t, force_summary) =
      let sends_tools = has_tools && not force_summary in
      received sends_tools (execute_api_call sends_tools (build_request t))

  abbrev pub unless_over : ℕ → Turn S W → Option String → Course S W
  unless_over api_calls t (some e) = stop_for_canceled_turn e (api_calls - 1) t
  unless_over api_calls t none =
      if ltb max_api_calls_per_turn api_calls
      then stop_for_api_call_cap t
      else call_api (check_between api_calls t)

  -- One round of the loop; `api_calls` is its number, from 1.
  unfoldable pub round : ℕ → Turn S W → Course S W
  unfolding stop_for_canceled_turn stop_for_api_call_cap check_between build_request
      execute_api_call after_response
  round api_calls t = unless_over api_calls t (env.context_error t.state)

  abbrev pub go_on : (Turn S W → Option (Course S W)) → Course S W → Option (Course S W)
  go_on next (again t) = next t
  go_on next (finished t) = some (finished t)
  go_on next (stopped t e) = some (stopped t e)

  -- The loop, with `fuel` rounds left; none if they are used up.
  unfoldable pub loop : ℕ → ℕ → Turn S W → Option (Course S W)
  unfolding round
  loop zero api_calls t = none
  loop (suc fuel) api_calls t = go_on (loop fuel (suc api_calls)) (round (suc api_calls) t)

  -- `Run`: one round more than there may be calls is enough.
  unfoldable pub run : Turn S W → Option (Course S W)
  unfolding loop
  run t = loop (suc max_api_calls_per_turn) 0 t
