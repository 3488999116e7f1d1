-- ===== src/Execution/Freshness.antt =====
-- The read cache after a block, against the files (agent/agent_run.go, `executeTools`).
use inber.Prelude.{
  Option, String, ◌≡◌, refl, ap, subst, ◌∙◌, ◌⊎◌, inl, inr, some, Bool, true, false, str_eq, eq_iff,
  if◌then◌else◌,
}
use inber.ReadCache.{ReadCache, evict}
use inber.ToolOutcome.{ToolCallOutcome, Tool, Ran}
use inber.ChainField.{Chained}
use inber.Chain.Gate.{RanTool, PrimaryPart, ChainPart, HasCourse, execute_with_chain-HasCourse}
use inber.Execution.Spared.{
  IsCached, key_of, Reads, Spares, evict-IsCached, record_read-IsCached, root-evict,
  root-record_read, root-after_primary, nameless-Spares, Reads-Spares,
}
use inber.Execution.{
  Agent, ToolUseBlock, Progress, record_read, after_primary, after_chain, bookkeep, run_of,
  execute_block,
}

module _ {V W C : Type 0} (a : Agent V W) (root : String) (contents : W → String → C) where
  -- What the tools do, as the comment on `invalidatesEverything` says of each that is registered: a file
  -- that the cache takes a call to spare holds afterwards what it held.
  abbrev pub AreClassified : Type 0
  AreClassified =
      (tool input path : String) (run : Tool W) (w : W)
      → a.dispatch.tool_map tool ≡ some run
      → Spares a root tool input path
      → contents (run input w).0 (key_of a root path) ≡ contents w (key_of a root path)

  -- A file that a block leaves in the cache: the block did not change it, and it was in the cache before or
  -- the primary call read it; or the chained call, the last thing that ran, read it.
  abbrev pub IsKept : String → String → ReadCache → W → W → ToolCallOutcome → Type 0
  IsKept name path cache before after o =
      ((contents after (key_of a root path) ≡ contents before (key_of a root path))
        × (IsCached a.paths path cache ⊎ Reads a root name o.primary_input path))
      ⊎ Reads a root o.chain_tool o.chain_input path

  RanTool-kept :
      (tool input path : String) (before after : W)
      → AreClassified
      → RanTool a.dispatch tool input before after
      → Spares a root tool input path
      → contents after (key_of a root path) ≡ contents before (key_of a root path)
  RanTool-kept tool input path before after classified (run, found, allowed, e) spares =
      ap (λ w. contents w (key_of a root path)) e
      ∙ classified tool input path run before found spares

  after_primary_kept :
      (name path : String) (o : ToolCallOutcome) (cache : ReadCache) (cached : Option String)
      (failed : Bool) (before between : W)
      → AreClassified
      → cache.root ≡ root
      → PrimaryPart a.dispatch name cached before between failed o
      → IsCached a.paths path (after_primary a name o cache)
      → (contents between (key_of a root path) ≡ contents before (key_of a root path))
        × IsCached a.paths path cache
  unfolding after_primary
  after_primary_kept name path o cache cached failed before between classified r
        (inl (e, same, why)) h =
      (
        ap (λ w. contents w (key_of a root path)) same,
        subst
            (λ b.
              IsCached a.paths path
                (if b then evict a.json a.paths name o.primary_input cache else cache))
            e h,
      )
  after_primary_kept name path o cache cached failed before between classified r
        (inr (e, ran, fresh, said)) h =
      let left = evict-IsCached a root name o.primary_input path cache r (
        subst
          (λ b.
            IsCached a.paths path
              (if b then evict a.json a.paths name o.primary_input cache else cache))
          e h) in
      (RanTool-kept name o.primary_input path before between classified ran left.0, left.1)

  after_chain_kept :
      (path : String) (ran : Ran W) (cache : ReadCache) (asked : Option Chained) (between : W)
      → AreClassified
      → cache.root ≡ root
      → ChainPart a.dispatch asked between ran
      → IsCached a.paths path (after_chain a ran.outcome cache)
      → ((contents ran.world (key_of a root path) ≡ contents between (key_of a root path))
          × IsCached a.paths path cache)
        ⊎ Reads a root ran.outcome.chain_tool ran.outcome.chain_input path
  unfolding after_chain
  after_chain_kept path ran cache asked between classified r part h =
      named (str_eq o.chain_tool "") refl h
    where
      o : ToolCallOutcome
      o = ran.outcome

      left : ReadCache
      left = evict a.json a.paths o.chain_tool o.chain_input cache

      Kept : Type 0
      Kept =
          ((contents ran.world (key_of a root path) ≡ contents between (key_of a root path))
            × IsCached a.paths path cache)
          ⊎ Reads a root o.chain_tool o.chain_input path

      unchanged :
          Spares a root o.chain_tool o.chain_input path
          → contents ran.world (key_of a root path) ≡ contents between (key_of a root path)
      unchanged spares = elim part [
        | inl (e, same, why) ↦ ap (λ w. contents w (key_of a root path)) same
        | inr (ok, t, its) ↦
            RanTool-kept o.chain_tool o.chain_input path between ran.world classified t spares
      ]

      evicted : IsCached a.paths path left → Kept
      evicted h =
          let spared = evict-IsCached a root o.chain_tool o.chain_input path cache r h in
          inl (unchanged spared.0, spared.1)

      ended :
          (broke : Bool)
          → IsCached a.paths path
              (if broke then left else record_read a o.chain_tool o.chain_input o.chain_output left)
          → Kept
      ended true h = evicted h
      ended false h =
          elim (record_read-IsCached a root o.chain_tool o.chain_input o.chain_output path left
            (root-evict a root o.chain_tool o.chain_input cache ∙ r) h) [
              | inl c ↦ evicted c
              | inr reads ↦ inr reads
            ]

      named :
          (blank : Bool)
          → str_eq o.chain_tool "" ≡ blank
          → IsCached a.paths path (
              if blank
              then cache
              else if o.chain_failed
              then left
              else record_read a o.chain_tool o.chain_input o.chain_output left)
          → Kept
      named true e h = inl (
        unchanged
            (nameless-Spares a root o.chain_tool o.chain_input path ((eq_iff o.chain_tool "").0 e)),
        h,
      )
      named false e h = ended o.chain_failed h

  primary_kept :
      (name path : String) (o : ToolCallOutcome) (cached : Option String) (failed : Bool)
      (before between : W)
      → AreClassified
      → PrimaryPart a.dispatch name cached before between failed o
      → Reads a root name o.primary_input path
      → contents between (key_of a root path) ≡ contents before (key_of a root path)
  primary_kept name path o cached failed before between classified (inl (e, same, why)) reads =
      ap (λ w. contents w (key_of a root path)) same
  primary_kept name path o cached failed before between classified (inr (e, ran, fresh, said))
        reads =
      RanTool-kept name o.primary_input path before between classified ran
        (Reads-Spares a root name o.primary_input path reads)

  bookkeep-IsKept :
      (name input path : String) (ran : Ran W) (cache : ReadCache) (cached : Option String)
      (asked : Option Chained) (before : W)
      → AreClassified
      → cache.root ≡ root
      → HasCourse a.dispatch name input cached asked before ran
      → IsCached a.paths path (bookkeep a name ran cache)
      → IsKept name path cache before ran.world ran.outcome
  unfolding bookkeep
  bookkeep-IsKept name input path ran cache cached asked before classified r
        (between, (its_input, primary, chain)) h =
      ended ran.is_error refl h
    where
      o : ToolCallOutcome
      o = ran.outcome

      left : ReadCache
      left = after_primary a name o cache

      read : ReadCache
      read = record_read a name o.primary_input o.primary_output left

      Kept : Type 0
      Kept = IsKept name path cache before ran.world o

      untouched :
          contents ran.world (key_of a root path) ≡ contents between (key_of a root path)
          → IsCached a.paths path left
          → Kept
      untouched same h =
          let kept =
            after_primary_kept name path o cache cached ran.is_error before between classified r
              primary h in
          inl (same ∙ kept.0, inl kept.1)

      through :
          contents ran.world (key_of a root path) ≡ contents between (key_of a root path)
          → IsCached a.paths path left ⊎ Reads a root name o.primary_input path
          → Kept
      through same (inl h) = untouched same h
      through same (inr reads) = inl (
        same ∙ primary_kept name path o cached ran.is_error before between classified primary reads,
        inr reads,
      )

      left_root : left.root ≡ root
      left_root = root-after_primary a root name o cache ∙ r

      ended :
          (failed : Bool)
          → ran.is_error ≡ failed
          → IsCached a.paths path (if failed then left else after_chain a o read)
          → Kept
      ended true e h = elim chain [
        | inl (none_ran, same, why) ↦ untouched (ap (λ w. contents w (key_of a root path)) same) h
        | inr (ok, t, its) ↦ cc
      ]
      ended false e h =
          elim (after_chain_kept path ran read asked between classified
            (root-record_read a root name o.primary_input o.primary_output left ∙ left_root) chain
            h) [
              | inl (same, cached) ↦ through same (
                  record_read-IsCached a root name o.primary_input o.primary_output path left
                    left_root cached)
              | inr reads ↦ inr reads
            ]

-- A file that a block leaves in the cache holds what it held after the rider, and was in the cache before
-- or was read by the primary call; or the chained call, the last thing that ran, read it. So what the
-- cache says is in context is not stale: if the tools are classified as the cache takes them to be.
pub execute_block-IsKept :
    {V W C : Type 0} (a : Agent V W) (contents : W → String → C) (block : ToolUseBlock)
    (p : Progress W) (path : String)
    → AreClassified a p.cache.root contents
    → IsCached a.paths path (execute_block a block p).cache
    → IsKept a p.cache.root contents block.name path p.cache
        (a.dispatch.rider block.input p.world).0
        (execute_block a block p).world
        (run_of a block p).outcome
unfolding execute_block
execute_block-IsKept a contents block p path classified h =
    bookkeep-IsKept a p.cache.root contents block.name _ path (run_of a block p) p.cache _ _ _
      classified refl
      (execute_with_chain-HasCourse a.dispatch block.id block.name block.input _ p.world) h
