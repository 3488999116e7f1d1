-- ===== src/Guard.antt =====
-- guard/guard.go, guard/mode.go and guard/state.go: what a session may do and may spend. Every
-- method holds the guard's mutex from start to end (`CheckTool` reads the mode and the approver
-- under it), so a method is one step on the record. Dollar amounts are float64: their type and
-- the operations that the guard uses are parameters. The clock is an argument, in nanoseconds.
use inber.Prelude.{
  ℕ, zero, suc, ◌+◌, ◌-◌, ◌/◌, String, List, [], ◌∷◌, Option, none, some, Bool, true, false, ◌&&◌,
  not, str_eq, contains, if◌then◌else◌,
}
use inber.Prelude.Int.{ℤ, pos, negsuc, ◌+ℤ◌, leb_ℤ, ltb_ℤ, is_zero}
pub mod Modes
pub mod Limits
pub mod Persistence
pub mod Repetition

-- The float64 operations: 0, `+`, `> 0`, `a >= b` and `== 0`.
pub record Float64 (F : Type 0) : Type 0 where
  pub float_zero : F
  pub add : F → F → F
  pub is_positive : F → Bool
  pub at_least : F → F → Bool
  pub is_float_zero : F → Bool

-- No code makes a `Mode` beyond these four, so `String` has no "unknown" here.
pub data Mode : Type 0 where
  unset observe assist autonomous : Mode

abbrev pub mode_name : Mode → String
mode_name unset = ""
mode_name observe = "observe"
mode_name assist = "assist"
mode_name autonomous = "autonomous"

-- The mode, and on an error the name that is none.
unfoldable pub parse_mode : String → Mode × Option String
parse_mode name =
    if str_eq name ""
    then (unset, none)
    else if str_eq name "observe"
    then (observe, none)
    else if str_eq name "assist"
    then (assist, none)
    else if str_eq name "autonomous"
    then (autonomous, none)
    else (observe, some name)

pub data Verdict : Type 0 where
  allowed needs_approval denied : Verdict

abbrev pub Approver : Type 0
Approver = String → String → Bool

abbrev pub read_only_tools : List String
read_only_tools =
    "read_files" ∷ "list_files" ∷ "ripgrep" ∷ "memory_expand" ∷ "memory_search" ∷ "repo_map"
    ∷ "recent_files" ∷ "web_search" ∷ []

abbrev pub dangerous_tools : List String
dangerous_tools = "shell_commands" ∷ "write_files" ∷ "edit_files" ∷ "deploy" ∷ []

unfoldable pub is_read_only : String → Bool
is_read_only tool = contains read_only_tools tool

unfoldable pub is_dangerous : String → Bool
is_dangerous tool = contains dangerous_tools tool

abbrev pub approves : Option Approver → String → String → Bool
approves none tool input = false
approves (some approve) tool input = approve tool input

-- The switch of `CheckTool`.
unfoldable pub check_mode : Mode → Option Approver → String → String → Verdict
check_mode observe approve tool input = if is_read_only tool then allowed else denied
check_mode assist approve tool input =
    if is_dangerous tool
    then (if approves approve tool input then allowed else needs_approval)
    else allowed
check_mode unset approve tool input = allowed
check_mode autonomous approve tool input = allowed

pub record Config (F : Type 0) : Type 0 where
  pub mode : Mode
  pub max_turns : ℤ
  pub max_input_tokens : ℤ
  pub max_cost : F
  pub max_duration : ℤ
  pub repetition_threshold : ℤ
  pub approval_func : Option Approver

pub record Guard (F : Type 0) : Type 0 where
  pub cfg : Config F
  pub turns : ℤ
  pub input_toks : ℤ
  pub cost : F
  pub started_at : ℕ
  pub seconds_before_this_run : ℤ
  pub last_tool : String
  pub last_input : String
  pub repeat_count : ℤ

-- What outlives the process.
pub record State (F : Type 0) : Type 0 where
  pub mode : String
  pub max_turns : ℤ
  pub max_input_tokens : ℤ
  pub max_cost : F
  pub max_duration : ℤ
  pub turns : ℤ
  pub input_tokens : ℤ
  pub cost : F
  pub elapsed_seconds : ℤ

-- `int(time.Since(startedAt).Seconds())`, of a clock that does not run backwards.
abbrev pub seconds_since : ℕ → ℕ → ℤ
seconds_since started now = pos ((now - started) / 1000000000)

-- A cap is in force if it is positive, and reached once the total is no less.
abbrev pub reached : ℤ → ℤ → Bool
reached cap total = ltb_ℤ (pos 0) cap && leb_ℤ cap total

-- The mode to run under, and the error, of a recorded mode; "" keeps the mode that is set.
abbrev pub recorded_mode : String → Mode → Mode × Option String
recorded_mode name current = if str_eq name "" then (current, none) else parse_mode name

-- A configured value outranks the recorded one wherever there is one.
abbrev pub prefer : ℤ → ℤ → ℤ
prefer configured recorded = if is_zero configured then recorded else configured

abbrev pub prefer_mode : String → String → String
prefer_mode configured recorded = if str_eq configured "" then recorded else configured

module _ {F : Type 0} where
  abbrev pub with_threshold : Config F → Config F
  with_threshold cfg =
      if is_zero cfg.repetition_threshold then record cfg { repetition_threshold = pos 3 } else cfg

  unfoldable pub check_tool : Guard F → String → String → Verdict
  unfolding check_mode
  check_tool g tool input = check_mode g.cfg.mode g.cfg.approval_func tool input

  unfoldable pub record_tool_call : Guard F → String → String → Guard F
  record_tool_call g tool input =
      if str_eq tool g.last_tool && str_eq input g.last_input
      then record g { repeat_count = g.repeat_count +ℤ pos 1 }
      else record g { last_tool = tool; last_input = input; repeat_count = pos 1 }

  unfoldable pub record_turn : Guard F → ℤ → Guard F
  record_turn g tokens = record g { turns = g.turns +ℤ pos 1; input_toks = g.input_toks +ℤ tokens }

  unfoldable pub set_max_input_tokens : Guard F → ℤ → Guard F
  set_max_input_tokens g max = record g { cfg = record (g.cfg) { max_input_tokens = max } }

  unfoldable pub is_repeating : Guard F → Bool
  is_repeating g = leb_ℤ g.cfg.repetition_threshold g.repeat_count

  unfoldable pub elapsed_seconds : Guard F → ℕ → ℤ
  elapsed_seconds g now = g.seconds_before_this_run +ℤ seconds_since g.started_at now

  unfoldable pub state : Guard F → ℕ → State F
  unfolding elapsed_seconds
  state g now = record {
    mode = mode_name g.cfg.mode;
    max_turns = g.cfg.max_turns;
    max_input_tokens = g.cfg.max_input_tokens;
    max_cost = g.cfg.max_cost;
    max_duration = g.cfg.max_duration;
    turns = g.turns;
    input_tokens = g.input_toks;
    cost = g.cost;
    elapsed_seconds = elapsed_seconds g now;
  }

  -- The guard, and on an error the mode that cannot be read.
  unfoldable pub restore_state : Guard F → State F → ℕ → Guard F × Option String
  restore_state g s now =
      let parsed = recorded_mode s.mode g.cfg.mode in
      (
        record g {
          cfg = record (g.cfg) {
            mode = parsed.0;
            max_turns = s.max_turns;
            max_input_tokens = s.max_input_tokens;
            max_cost = s.max_cost;
            max_duration = s.max_duration;
          };
          turns = s.turns;
          input_toks = s.input_tokens;
          cost = s.cost;
          seconds_before_this_run = s.elapsed_seconds;
          started_at = now;
        },
        parsed.1,
      )

module _ {F : Type 0} (f : Float64 F) where
  unfoldable pub new : Config F → ℕ → Guard F
  new cfg now = record {
    cfg = with_threshold cfg;
    turns = pos 0;
    input_toks = pos 0;
    cost = f.float_zero;
    started_at = now;
    seconds_before_this_run = pos 0;
    last_tool = "";
    last_input = "";
    repeat_count = pos 0;
  }

  unfoldable pub record_cost : Guard F → F → Guard F
  record_cost g dollars = record g { cost = f.add g.cost dollars }

  abbrev pub cost_reached : F → F → Bool
  cost_reached cap total = f.is_positive cap && f.at_least total cap

  unfoldable pub check_limits : Guard F → ℕ → Bool × String
  check_limits g now =
      if reached g.cfg.max_turns g.turns
      then (true, "max turns exceeded")
      else if reached g.cfg.max_input_tokens g.input_toks
      then (true, "max input tokens exceeded")
      else if cost_reached g.cfg.max_cost g.cost
      then (true, "max cost exceeded")
      else if reached g.cfg.max_duration (elapsed_seconds g now)
      then (true, "max duration exceeded")
      else (false, "")

  abbrev pub prefer_cost : F → F → F
  prefer_cost configured recorded = if f.is_float_zero configured then recorded else configured

  unfoldable pub resume_state : State F → State F → State F
  resume_state recorded configured = record recorded {
    mode = prefer_mode configured.mode recorded.mode;
    max_turns = prefer configured.max_turns recorded.max_turns;
    max_input_tokens = prefer configured.max_input_tokens recorded.max_input_tokens;
    max_cost = prefer_cost configured.max_cost recorded.max_cost;
    max_duration = prefer configured.max_duration recorded.max_duration;
  }

  -- `recorded == (guard.State{})`.
  abbrev pub is_blank : State F → Bool
  is_blank s =
      str_eq s.mode ""
      && is_zero s.max_turns
      && is_zero s.max_input_tokens
      && f.is_float_zero s.max_cost
      && is_zero s.max_duration
      && is_zero s.turns
      && is_zero s.input_tokens
      && f.is_float_zero s.cost
      && is_zero s.elapsed_seconds

  -- server/session_creation.go, `restoreGuardState`: `none` is a record that cannot be read.
  unfoldable pub restore_guard_state : Guard F → Option (State F) → ℕ → Guard F
  restore_guard_state g none now = g
  restore_guard_state g (some recorded) now =
      if is_blank recorded then g else (restore_state g (resume_state recorded (state g now)) now).0
