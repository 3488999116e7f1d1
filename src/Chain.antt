-- ===== src/Chain.antt =====
-- agent/chain.go: one tool_use block, with the call that its "then" field chains. `extractSideband` and
-- `processSideband` are one argument, `rider`; so are JSON, `%q` and `strings.TrimSpace`. Of the hooks,
-- the reports of results are modelled.
use Prim.Native.String
use inber.Prelude.{
  String, List, [], ◌∷◌, ◌++◌, Option, none, some, Bool, true, false, not, str_eq, if◌then◌else◌,
}
use inber.ChainField.{Chained, Extracted, extract_chain}
use inber.ToolOutcome.{
  ToolCallOutcome, RunResult, succeeded, errored, Tool, Report, Dispatch, Ran, refuse_tool_call,
  chain_not_run_note, not_run, not_run_with_primary, opening, is_some,
}
pub mod Asked
pub mod Gate

module _ {V W : Type 0} (d : Dispatch V W) where
  -- The gate's reason not to run a call.
  abbrev pub refused : String → String → Option String
  refused tool input = elim d.refusal [
    | none ↦ none
    | some gate ↦ if str_eq (gate tool input) "" then none else some (gate tool input)
  ]

  abbrev pub output_of : RunResult → String
  output_of (succeeded output) = output
  output_of (errored e) = String.◌++◌ "error: " e

  abbrev pub is_errored : RunResult → Bool
  is_errored (succeeded output) = false
  is_errored (errored e) = true

  abbrev pub chain_id : String → String
  chain_id id = String.◌++◌ id "-chain"

  abbrev pub chain_ran : String → ToolCallOutcome → Chained → List Report → W × RunResult → Ran W
  chain_ran id o c reports (w, result) = record {
    world = w;
    outcome = record o {
      chain_tool = c.tool;
      chain_input = c.input;
      chain_output = output_of result;
      chain_failed = is_errored result;
      combined = String.◌++◌ o.primary_output (
          String.◌++◌ "\n\n--- then("
            (String.◌++◌ c.tool (String.◌++◌ ") ---\n" (output_of result))));
    };
    is_error = false;
    reports =
        reports
        ++ record {
          id = chain_id id;
          tool = c.tool;
          output = output_of result;
          is_error = is_errored result;
        }
          ∷ [];
  }

  abbrev pub only_primary : ToolCallOutcome → List Report → W → Ran W
  only_primary o reports w = record {
    world = w;
    outcome = record o { combined = o.primary_output };
    is_error = false;
    reports = reports;
  }

  abbrev pub gated_chain :
      String → ToolCallOutcome → Chained → List Report → W → Tool W → Option String → Ran W
  gated_chain id o c reports w run (some reason) =
      only_primary (record (not_run c.tool reason o) { chain_not_run_refused = true }) reports w
  gated_chain id o c reports w run none = chain_ran id o c reports (run c.input w)

  abbrev pub found_chain :
      String → ToolCallOutcome → Chained → List Report → W → Option (Tool W) → Ran W
  found_chain id o c reports w none =
      only_primary (not_run c.tool "no tool of that name" o) reports w
  found_chain id o c reports w (some run) =
      gated_chain id o c reports w run (refused c.tool c.input)

  -- What follows a primary call that has its output.
  abbrev pub run_chain : String → ToolCallOutcome → Option Chained → List Report → W → Ran W
  run_chain id o none reports w = only_primary o reports w
  run_chain id o (some c) reports w = found_chain id o c reports w (d.tool_map c.tool)

  abbrev pub report_primary : String → String → String → List Report
  report_primary id name output =
      record { id = id; tool = name; output = output; is_error = false } ∷ []

  abbrev pub stopped : ToolCallOutcome → W → Ran W
  stopped o w = record { world = w; outcome = o; is_error = true; reports = [] }

  abbrev pub primary_ended :
      String → String → ToolCallOutcome → Option Chained → W × RunResult → Ran W
  primary_ended id name o chain (w, errored e) =
      stopped
        (not_run_with_primary chain (String.◌++◌ "the call it was attached to failed — " e)
          (record o { primary_ran = true; combined = String.◌++◌ "error: " e }))
        w
  primary_ended id name o chain (w, succeeded output) =
      run_chain id (record o { primary_ran = true; primary_output = output }) chain
        (report_primary id name output) w

  abbrev pub found_primary :
      String → String → ToolCallOutcome → Option Chained → W → Option (Tool W) → Ran W
  found_primary id name o chain w none =
      stopped
        (not_run_with_primary chain
          (String.◌++◌ "the call it was attached to names no tool " (d.quote name))
          (record o { combined = String.◌++◌ "error: unknown tool " (d.quote name) }))
        w
  found_primary id name o chain w (some run) = primary_ended id name o chain (run o.primary_input w)

  -- The primary call, unless the read cache has answered for it.
  abbrev pub run_primary :
      String → String → ToolCallOutcome → Option Chained → W → Option String → Ran W
  run_primary id name o chain w none = found_primary id name o chain w (d.tool_map name)
  run_primary id name o chain w (some cached) =
      run_chain id (record o { primary_output = cached }) chain (report_primary id name cached) w

  abbrev pub gated_primary :
      String → String → ToolCallOutcome → Option Chained → W → Option String → Option String → Ran W
  gated_primary id name o chain w cached (some reason) =
      stopped
        (not_run_with_primary chain
          (String.◌++◌ "the call it was attached to was refused — " reason)
          (record o { combined = refuse_tool_call name reason }))
        w
  gated_primary id name o chain w cached none = run_primary id name o chain w cached

  abbrev pub with_note : String → String → Ran W → Ran W
  with_note id note ran = if str_eq note "" then ran else record ran {
    outcome = record (ran.outcome) { combined = String.◌++◌ ran.outcome.combined note };
    reports =
        ran.reports
        ++ record {
          id = chain_id id;
          tool = ran.outcome.chain_not_run_tool;
          output = d.trim_space note;
          is_error = not ran.is_error;
        }
          ∷ [];
  }

  -- The deferred function: what the rider did, and why the chain did not run.
  abbrev pub deferred : String → String → Ran W → Ran W
  deferred id summary ran =
      let told = if str_eq summary "" then ran else record ran {
        outcome = record (ran.outcome) {
          combined = String.◌++◌ summary (String.◌++◌ "\n" ran.outcome.combined);
        };
      } in
      with_note id (chain_not_run_note ran.outcome) told

  -- `executeWithChain`, of the rest of the block once its rider is done.
  abbrev pub run_block : String → String → String → Option String → Extracted → String → W → Ran W
  run_block id name raw_input cached extracted summary w = deferred id summary (
      gated_primary id name
        (opening extracted.clean_input extracted.dropped (is_some (d.json.unmarshal raw_input)))
        extracted.chain w cached (refused name extracted.clean_input))

  unfoldable pub execute_with_chain : String → String → String → Option String → W → Ran W
  unfolding extract_chain refuse_tool_call chain_not_run_note
  execute_with_chain id name raw_input cached w =
      let (after, clean, summary) = d.rider raw_input w in
      run_block id name raw_input cached (extract_chain d.json clean) summary after
