-- ===== src/Manage.antt =====
-- conversation/manage.go: `ManageConversation`, which deduplicates, stashes, saves and prunes, and the
-- tests that decide whether a conversation is managed.
use Prim.Native.String
use inber.Prelude.{
  ℕ, suc, ◌+◌, ◌*◌, String, List, [], ◌∷◌, Bool, true, false, length, leb, ltb, if◌then◌else◌,
}
use inber.Prelude.Int.{ℤ, pos, leb_ℤ, ltb_ℤ, ◌+ℤ◌, sub_ℕ}
use inber.Message.{Message}
use inber.ReadCache.{Json}
use inber.ManagementConfig.{ManagementConfig}
use inber.Prune.{
  Marshal, Tally, no_tally, add_tally, prune_message, tool_names_by_use_id, compute_ages,
}
use inber.Dedup.{deduplicate_file_refs}
use inber.Estimate.{Estimator, estimate_message_tokens, estimate_tokens}
use inber.Shelf.{Shelf, Shelved}
use inber.Stash.{apply_stashing}
use inber.AutoSave.{Facts, auto_save_to_memory}
pub mod Preserved
pub mod Recent

-- `PrunedMessages` is `ManagedMessages`; `TruncatedToolCalls` and its kin are the tally.
pub record ManagementResult : Type 0 where
  pub original_messages : ℕ
  pub managed_messages : ℕ
  pub tokens_freed : ℤ
  pub memories_saved : ℕ
  pub strategy : String
  pub tally : Tally
  pub stashed_blocks : ℕ
  pub deduplicated_files : ℕ

pub record Tools (V : Type 0) : Type 0 where
  pub json : Json V
  pub marshal : Marshal
  pub estimator : Estimator
  pub shelf : Shelf
  pub facts : Facts

abbrev pub untouched_result : ManagementConfig → ℕ → ManagementResult
untouched_result cfg n = record {
  original_messages = n;
  managed_messages = 0;
  tokens_freed = pos 0;
  memories_saved = 0;
  strategy = String.◌++◌ "unified-" cfg.role;
  tally = no_tally;
  stashed_blocks = 0;
  deduplicated_files = 0;
}

-- The messages as pruned, how many of them were rewritten, the tokens freed, and the counters.
pub record Pruning : Type 0 where
  pub final_messages : List Message
  pub rewritten : ℕ
  pub freed : ℤ
  pub counts : Tally

abbrev pub onto_pruning : Estimator → Message → Message × Bool × Tally → Pruning → Pruning
onto_pruning estimator m (managed, pruned, tally) rest = record {
  final_messages = managed ∷ rest.final_messages;
  rewritten = if pruned then suc rest.rewritten else rest.rewritten;
  freed =
      if pruned
      then sub_ℕ (estimate_message_tokens estimator m) (estimate_message_tokens estimator managed)
        +ℤ rest.freed
      else rest.freed;
  counts = add_tally tally rest.counts;
}

-- The loop over the messages, with the age of each.
unfoldable pub prune_messages :
    Estimator
    → Marshal
    → ManagementConfig
    → List (String × String)
    → List ℕ
    → List Message
    → Pruning
unfolding prune_message estimate_message_tokens
prune_messages estimator marshal cfg names ages [] = record {
  final_messages = [];
  rewritten = 0;
  freed = pos 0;
  counts = no_tally;
}
prune_messages estimator marshal cfg names [] (m ∷ ms) = record {
  final_messages = m ∷ ms;
  rewritten = 0;
  freed = pos 0;
  counts = no_tally;
}
prune_messages estimator marshal cfg names (age ∷ ages) (m ∷ ms) =
    onto_pruning estimator m (prune_message marshal cfg names age m)
      (prune_messages estimator marshal cfg names ages ms)

unfoldable pub manage_conversation :
    {V : Type 0}
    → Tools V
    → String
    → ManagementConfig
    → List Message
    → Shelved
    → List Message × ManagementResult × Shelved
unfolding deduplicate_file_refs apply_stashing compute_ages auto_save_to_memory tool_names_by_use_id
    prune_messages
manage_conversation tools session cfg ms st =
    let (deduped, files) = deduplicate_file_refs tools.json tools.marshal ms in
    let (managed, blocks, st1) = apply_stashing tools.shelf session cfg.stash deduped st in
    let ages = compute_ages managed in
    let (saved, st2) =
      if tools.shelf.has_store
      then auto_save_to_memory tools.shelf tools.facts session cfg ages managed (0, st1)
      else (0, st1) in
    let names = tool_names_by_use_id managed in
    let done = prune_messages tools.estimator tools.marshal cfg names ages managed in
    if leb_ℤ (pos (length ms)) cfg.keep_recent_turns
    then (ms, untouched_result cfg (length ms), st)
    else (
      done.final_messages,
      record {
        original_messages = length ms;
        managed_messages = done.rewritten;
        tokens_freed = done.freed;
        memories_saved = saved;
        strategy = String.◌++◌ "unified-" cfg.role;
        tally = done.counts;
        stashed_blocks = blocks;
        deduplicated_files = files;
      },
      st2,
    )

unfoldable pub should_prune : Estimator → ManagementConfig → List Message → Bool
unfolding estimate_tokens
should_prune estimator cfg ms =
    if ltb_ℤ (cfg.keep_recent_turns +ℤ cfg.keep_recent_turns) (pos (length ms))
    then true
    else if leb_ℤ (pos (length ms)) cfg.keep_recent_turns
    then false
    else ltb_ℤ cfg.token_budget (pos (estimate_tokens estimator ms))
