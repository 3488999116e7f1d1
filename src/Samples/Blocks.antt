-- ===== src/Samples/Blocks.antt =====
-- A response of two blocks: a file is read, then changed by the shell behind the cache's back.
use inber.Prelude.{
  String, ◌≡◌, refl, sym, ap, subst, ◌∙◌, inl, inr, [], ◌∷◌, Option, none, some, false, str_eq,
  eq_iff, Bool-cases, if◌then◌else◌,
}
use inber.ReadCache.{
  check, key_for, record_full_read, is_full_read, is_partial_read, is_file_write,
  invalidates_everything, writes_named_paths, evict, invalidate_all, invalidate, new_read_cache,
  stub, entry, without_key,
}
use inber.ChainField.{ChainJson, extract_chain}
use inber.ToolOutcome.{Tool, succeeded, errored, Dispatch, chain_not_run_note}
use inber.Chain.{execute_with_chain}
use inber.Chain.Gate.{HasCourse, extracted_of, execute_with_chain-HasCourse}
use inber.Execution.{
  Agent, ToolUseBlock, Progress, execute_block, execute_tools, run_of, bookkeep,
  cached_primary_output, after_primary, after_chain, record_read,
}
use inber.Execution.Spared.{IsCached}
use inber.Execution.Freshness.{AreClassified, IsKept, execute_block-IsKept}
use inber.Samples.Caches.{json, paths}

-- The world is what one file holds.
abbrev reader : Tool String
reader input w = (w, succeeded w)

abbrev shell : Tool String
shell input w = ("changed", errored "exit status 1")

pub tool_map : String → Option (Tool String)
tool_map name =
    if str_eq name "read_files"
    then some reader
    else if str_eq name "shell_commands"
    then some shell
    else none

abbrev chain_json : ChainJson String
chain_json = record {
  unmarshal = json.unmarshal;
  marshal_object = λ fields. none;
  marshal = λ field. none;
  as_string = λ field. some field;
  unmarshal_chained = λ raw. none;
}

abbrev dispatch : Dispatch String String
dispatch = record {
  json = chain_json;
  tool_map = tool_map;
  refusal = some (λ tool input. "");
  rider = λ raw w. (w, raw, "");
  quote = λ s. s;
  trim_space = λ s. s;
}

abbrev pub agent : Agent String String
agent = record {
  dispatch = dispatch;
  json = json;
  paths = paths;
  extract_complete_file_lines = λ output. 3;
  modify_tool_result = λ id tool output is_error. "";
  post_tool_result = λ id tool output is_error. "";
}

abbrev start : Progress String
start = record {
  cache = new_read_cache;
  world = "package a";
  tool_calls = 0;
  tool_results = [];
  post_injections = [];
  reports = [];
}

abbrev read_block : ToolUseBlock
read_block = record { id = "t1"; name = "read_files"; input = "./a.go" }

abbrev shell_block : ToolUseBlock
shell_block = record { id = "t2"; name = "shell_commands"; input = "sed -i" }

read_run : (execute_tools agent (read_block ∷ []) start).cache.files ≡ ("a.go", 3) ∷ []
unfolding execute_tools execute_block bookkeep cached_primary_output after_primary after_chain
    record_read evict is_file_write is_full_read is_partial_read invalidates_everything
    writes_named_paths invalidate invalidate_all record_full_read key_for check entry without_key
    execute_with_chain extract_chain tool_map chain_not_run_note
read_run = refl

shell_run : (execute_tools agent (read_block ∷ shell_block ∷ []) start).cache.files ≡ []
unfolding execute_tools execute_block bookkeep cached_primary_output after_primary after_chain
    record_read evict is_file_write is_full_read is_partial_read invalidates_everything
    writes_named_paths invalidate invalidate_all record_full_read key_for check entry without_key
    execute_with_chain extract_chain tool_map chain_not_run_note
shell_run = refl

abbrev contents : String → String → String
contents w key = w

abbrev left_by : String → String → Option (Tool String) → String
left_by input w none = w
left_by input w (some run) = (run input w).0

agent-AreClassified : AreClassified agent "" contents
unfolding tool_map invalidates_everything
agent-AreClassified tool input path run w found spares =
    elim (Bool-cases (str_eq tool "read_files")) [
      | inl e ↦ left_as (some reader) (rw e refl)
      | inr e ↦ elim (Bool-cases (str_eq tool "shell_commands")) [
        | inl d ↦ shell_writes spares.0 ((eq_iff tool "shell_commands").0 d)
        | inr d ↦ left_as none (rw (e, d) refl)
      ]
    ]
  where
    left_as :
        (tool_found : Option (Tool String))
        → tool_map tool ≡ tool_found
        → (run input w).0 ≡ left_by input w tool_found
    left_as tool_found e = ap (left_by input w) (sym found ∙ e)

    shell_writes :
        invalidates_everything tool ≡ false → tool ≡ "shell_commands" → (run input w).0 ≡ w
    shell_writes spared named = cc (subst (λ t. invalidates_everything t ≡ false) named spared)

execute_with_chain-HasCourse_example :
    HasCourse dispatch "read_files"
      (extracted_of dispatch "./a.go" "package a").clean_input
      none
      (extracted_of dispatch "./a.go" "package a").chain
      "package a"
      (execute_with_chain dispatch "t1" "read_files" "./a.go" none "package a")
execute_with_chain-HasCourse_example =
    execute_with_chain-HasCourse dispatch "t1" "read_files" "./a.go" none "package a"

read_block-IsCached : IsCached paths "a.go" (execute_block agent read_block start).cache
unfolding execute_tools execute_block bookkeep cached_primary_output after_primary after_chain
    record_read evict is_file_write is_full_read is_partial_read invalidates_everything
    writes_named_paths invalidate invalidate_all record_full_read key_for check entry without_key
    execute_with_chain extract_chain tool_map chain_not_run_note
read_block-IsCached = (stub 3, refl)

execute_block-IsKept_example :
    IsKept agent "" contents "read_files" "a.go" new_read_cache "package a"
      (execute_block agent read_block start).world
      (run_of agent read_block start).outcome
execute_block-IsKept_example =
    execute_block-IsKept agent contents read_block start "a.go" agent-AreClassified
      read_block-IsCached
