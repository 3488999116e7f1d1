-- ===== src/Execution.antt =====
-- agent/agent_run.go, `executeTools`: the tool_use blocks of a response, one after the other, and what
-- they do to the read cache. `extractCompleteFileLines` and two hooks are arguments; images are left out.
use Prim.Native.String
use inber.Prelude.{
  ℕ, suc, String, List, [], ◌∷◌, ◌++◌, Option, none, some, Bool, true, false, str_eq, ltb,
  if◌then◌else◌,
}
use inber.ReadCache.{
  Json, Paths, ReadCache, check, record_full_read, is_full_read, is_partial_read, evict,
}
use inber.ToolOutcome.{ToolCallOutcome, Report, Dispatch, Ran}
use inber.Chain.{execute_with_chain}
pub mod Spared
pub mod Freshness
pub mod Results

pub record ToolUseBlock : Type 0 where
  pub id : String
  pub name : String
  pub input : String

pub record ToolResultBlock : Type 0 where
  pub id : String
  pub output : String
  pub is_error : Bool

-- A hook that answers "" has nothing to say.
abbrev pub Hook : Type 0
Hook = String → String → String → Bool → String

pub record Agent (V W : Type 0) : Type 0 where
  pub dispatch : Dispatch V W
  pub json : Json V
  pub paths : Paths
  pub extract_complete_file_lines : String → ℕ
  pub modify_tool_result : Hook
  pub post_tool_result : Hook

-- The cache and the world, and what `executeTools` collects.
pub record Progress (W : Type 0) : Type 0 where
  pub cache : ReadCache
  pub world : W
  pub tool_calls : ℕ
  pub tool_results : List ToolResultBlock
  pub post_injections : List String
  pub reports : List Report

module _ {V W : Type 0} (a : Agent V W) where
  abbrev pub looked_up : Option String → ReadCache → Option String
  looked_up none cache = none
  looked_up (some path) cache = check a.paths path cache

  abbrev pub or_else : Option String → Option String → Option String
  or_else none other = other
  or_else (some stub) other = some stub

  unfoldable pub cached_primary_output : String → String → ReadCache → Option String
  cached_primary_output name input cache =
      or_else (looked_up (is_full_read a.json name input) cache)
        (looked_up (is_partial_read a.json name input) cache)

  abbrev pub record_path : Option String → ℕ → ReadCache → ReadCache
  record_path none lines cache = cache
  record_path (some path) lines cache =
      if ltb 0 lines then record_full_read a.paths path lines cache else cache

  unfoldable pub record_read : String → String → String → ReadCache → ReadCache
  record_read tool input output cache =
      record_path (is_full_read a.json tool input) (a.extract_complete_file_lines output) cache

  unfoldable pub after_primary : String → ToolCallOutcome → ReadCache → ReadCache
  after_primary name o cache =
      if o.primary_ran then evict a.json a.paths name o.primary_input cache else cache

  unfoldable pub after_chain : ToolCallOutcome → ReadCache → ReadCache
  after_chain o cache =
      let left = evict a.json a.paths o.chain_tool o.chain_input cache in
      if str_eq o.chain_tool ""
      then cache
      else if o.chain_failed
      then left
      else record_read o.chain_tool o.chain_input o.chain_output left

  -- The cache after a block.
  unfoldable pub bookkeep : String → Ran W → ReadCache → ReadCache
  bookkeep name ran cache =
      let left = after_primary name ran.outcome cache in
      if ran.is_error
      then left
      else after_chain ran.outcome
          (record_read name ran.outcome.primary_input ran.outcome.primary_output left)

  abbrev pub modified : ToolUseBlock → String → Bool → String
  modified block output is_error =
      let answer = a.modify_tool_result block.id block.name output is_error in
      if str_eq answer "" then output else answer

  abbrev pub injected : ToolUseBlock → Ran W → List String
  injected block ran =
      let answer = a.post_tool_result block.id block.name ran.outcome.combined false in
      if ran.is_error then [] else if str_eq answer "" then [] else answer ∷ []

  abbrev pub failure_report : ToolUseBlock → Ran W → List Report
  failure_report block ran =
      if ran.is_error
      then record {
        id = block.id;
        tool = block.name;
        output = ran.outcome.combined;
        is_error = true;
      }
        ∷ []
      else []

  abbrev pub run_of : ToolUseBlock → Progress W → Ran W
  run_of block p =
      execute_with_chain a.dispatch block.id block.name block.input
        (cached_primary_output block.name block.input p.cache) p.world

  unfoldable pub execute_block : ToolUseBlock → Progress W → Progress W
  unfolding bookkeep cached_primary_output
  execute_block block p =
      let ran = run_of block p in
      record {
        cache = bookkeep block.name ran p.cache;
        world = ran.world;
        tool_calls = suc p.tool_calls;
        tool_results =
            p.tool_results
            ++ record {
              id = block.id;
              output = modified block ran.outcome.combined ran.is_error;
              is_error = ran.is_error;
            }
              ∷ [];
        post_injections = p.post_injections ++ injected block ran;
        reports = p.reports ++ ran.reports ++ failure_report block ran;
      }

  unfoldable pub execute_tools : List ToolUseBlock → Progress W → Progress W
  execute_tools [] p = p
  execute_tools (block ∷ blocks) p = execute_tools blocks (execute_block block p)
