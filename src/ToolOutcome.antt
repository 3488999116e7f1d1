-- ===== src/ToolOutcome.antt =====
-- agent/chain.go: what one tool_use block produces, and what is said of a chain that did not run.
use Prim.Native.String
use inber.Prelude.{String, List, Option, none, some, Bool, true, false, not, str_eq, if◌then◌else◌}
use inber.ChainField.{Chained, ChainJson}

pub record ToolCallOutcome : Type 0 where
  pub combined : String
  pub primary_input : String
  pub primary_output : String
  pub primary_ran : Bool
  pub chain_tool : String
  pub chain_input : String
  pub chain_output : String
  pub chain_failed : Bool
  pub chain_not_run_tool : String
  pub chain_not_run_reason : String
  pub chain_not_run_refused : Bool

-- What a tool returns.
pub data RunResult : Type 0 where
  succeeded : String → RunResult
  errored : String → RunResult

abbrev pub Tool : Type 0 → Type 0
Tool W = String → W → W × RunResult

-- A call of the `OnToolResult` hook.
pub record Report : Type 0 where
  pub id : String
  pub tool : String
  pub output : String
  pub is_error : Bool

abbrev pub is_some : {A : Type 0} → Option A → Bool
is_some none = false
is_some (some a) = true

-- What a block is run with. A rider takes the raw input to the input without it and a summary.
pub record Dispatch (V W : Type 0) : Type 0 where
  pub json : ChainJson V
  pub tool_map : String → Option (Tool W)
  pub refusal : Option (String → String → String)
  pub rider : String → W → W × String × String
  pub quote : String → String
  pub trim_space : String → String

-- What `executeWithChain` returns, the world it leaves and the reports it made.
pub record Ran (W : Type 0) : Type 0 where
  pub world : W
  pub outcome : ToolCallOutcome
  pub is_error : Bool
  pub reports : List Report

unfoldable pub refuse_tool_call : String → String → String
refuse_tool_call tool reason =
    String.◌++◌ "refused: " (String.◌++◌ tool (String.◌++◌ " was not run — " reason))

unfoldable pub chain_note : String → String → String
chain_note tool body =
    String.◌++◌ "\n\n--- then(" (String.◌++◌ tool (String.◌++◌ ") " (String.◌++◌ body " ---")))

unfoldable pub chain_not_run_note : ToolCallOutcome → String
unfolding chain_note refuse_tool_call
chain_not_run_note o =
    if str_eq o.chain_not_run_reason ""
    then ""
    else if o.chain_not_run_refused
    then chain_note o.chain_not_run_tool
        (refuse_tool_call o.chain_not_run_tool o.chain_not_run_reason)
    else chain_note o.chain_not_run_tool (String.◌++◌ "not run: " o.chain_not_run_reason)

abbrev pub not_run : String → String → ToolCallOutcome → ToolCallOutcome
not_run tool reason o = record o { chain_not_run_tool = tool; chain_not_run_reason = reason }

abbrev pub not_run_with_primary : Option Chained → String → ToolCallOutcome → ToolCallOutcome
not_run_with_primary none reason o = o
not_run_with_primary (some c) reason o = not_run c.tool reason o

abbrev pub blank : String → ToolCallOutcome
blank clean = record {
  combined = "";
  primary_input = clean;
  primary_output = "";
  primary_ran = false;
  chain_tool = "";
  chain_input = "";
  chain_output = "";
  chain_failed = false;
  chain_not_run_tool = "";
  chain_not_run_reason = "";
  chain_not_run_refused = false;
}

-- The outcome before the gate is asked.
abbrev pub opening : String → String → Bool → ToolCallOutcome
opening clean dropped parses =
    if not (str_eq dropped "")
    then not_run "then" dropped (blank clean)
    else if not parses
    then not_run "then"
        "the tool input did not parse as JSON, so a \"then\" chain or a done/note/split rider in it — if there was one — was never read"
        (blank clean)
    else blank clean
