-- ===== src/Samples/Turns.antt =====
-- A turn of two calls of the model: it reads a file, then it answers.
use inber.Prelude.{
  ℕ, suc, ◌+◌, ◌*◌, ◌≡◌, refl, String, [], ◌∷◌, none, some, true, if◌then◌else◌, ◌==◌,
}
use inber.Prelude.Int.{pos}
use inber.Message.{text, tool_use, user_message}
use inber.ReadCache.{new_read_cache}
use inber.TurnParts.{
  max_api_calls_per_turn, Response, completed, Surroundings, Turn, Course, empty_result, no_usage,
}
use inber.RequestLoop.{run}
use inber.RequestLoop.Bounded.{Ends, HasEnded, turn_of, run-Ends}
use inber.RequestLoop.Turning.{KeepsReady, run-Settled}
use inber.TurnParts.Answering.{Settled}
use inber.Samples.Blocks.{agent}

abbrev reading : Response
reading = record {
  stop_reason = "tool_use";
  content = tool_use (record { id = "t1"; name = "read_files"; input = "a.go" }) ∷ [];
  usage = no_usage;
}

abbrev done : Response
done = record { stop_reason = "end_turn"; content = text "Done." ∷ []; usage = no_usage }

-- The state counts the calls.
abbrev env : Surroundings ℕ
env = record {
  context_error = λ n. none;
  inject_check = λ n. (n, []);
  limit_check = λ result n. (n, none);
  has_before_request = true;
  context_window = 1000;
  before_request = λ ms window n. (n, ms, pos 0);
  first_call = λ request n. (suc n, completed (if n == 0 then reading else done));
  retry_call = λ request n. (n, completed done);
  unconvertible = λ response. none;
}

abbrev start : Turn ℕ String
start = record {
  messages = user_message (text "go" ∷ []) ∷ [];
  result = empty_result;
  volatile_context = "";
  cache = new_read_cache;
  world = "package a";
  state = 0;
  requests = 0;
}

env-KeepsReady : KeepsReady env
env-KeepsReady ms window n h = h

run-Ends_example : Ends env agent true (run env agent true start) (0 + 2 * max_api_calls_per_turn)
run-Ends_example = run-Ends env agent true start

run-Settled_example :
    (c : Course ℕ String) × (run env agent true start ≡ some c)
    × HasEnded c
    × Settled (turn_of c).messages
run-Settled_example = run-Settled env agent true env-KeepsReady start (tt, refl)
