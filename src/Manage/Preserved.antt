-- ===== src/Manage/Preserved.antt =====
-- conversation/manage.go: what management leaves of a conversation.
use inber.Prelude.{ℕ, String, List, [], ◌∷◌, ◌≡◌, refl, ◌∙◌, inl, inr, Bool-cases, length}
use mathlib.Core.Path.{ap₂}
use inber.Prelude.Int.{pos, leb_ℤ}
use inber.Message.{Message}
use inber.Repair.Answered.{Answered}
use inber.ManagementConfig.{ManagementConfig}
use inber.Prune.{Marshal, tool_names_by_use_id, compute_ages}
use inber.Prune.Outline.{outline, outline_message-prune_message, outline-Answered}
use inber.Dedup.{deduplicate_file_refs}
use inber.Dedup.Rewriting.{outline-deduplicate_file_refs}
use inber.Estimate.{Estimator}
use inber.Shelf.{Shelved}
use inber.Stash.{apply_stashing}
use inber.Stash.Kept.{outline-apply_stashing}
use inber.Manage.{Tools, prune_messages, manage_conversation}

outline-prune_messages :
    (estimator : Estimator) (marshal : Marshal) (cfg : ManagementConfig)
    (names : List (String × String)) (ages : List ℕ) (ms : List Message)
    → outline (prune_messages estimator marshal cfg names ages ms).final_messages ≡ outline ms
unfolding prune_messages
outline-prune_messages estimator marshal cfg names ages [] = refl
outline-prune_messages estimator marshal cfg names [] (m ∷ ms) = refl
outline-prune_messages estimator marshal cfg names (age ∷ ages) (m ∷ ms) =
    ap₂ (◌∷◌) (outline_message-prune_message marshal cfg names age m)
      (outline-prune_messages estimator marshal cfg names ages ms)

-- Management changes texts, inputs and contents of results, and nothing else.
pub outline-manage_conversation :
    {V : Type 0} (tools : Tools V) (session : String) (cfg : ManagementConfig) (ms : List Message)
    (st : Shelved)
    → outline (manage_conversation tools session cfg ms st).0 ≡ outline ms
unfolding manage_conversation
outline-manage_conversation tools session cfg ms st =
    let deduped = (deduplicate_file_refs tools.json tools.marshal ms).0 in
    let managed = (apply_stashing tools.shelf session cfg.stash deduped st).0 in
    let done =
      prune_messages tools.estimator tools.marshal cfg (tool_names_by_use_id managed)
        (compute_ages managed) managed in
    let kept : outline done.final_messages ≡ outline ms =
      outline-prune_messages tools.estimator tools.marshal cfg (tool_names_by_use_id managed)
        (compute_ages managed) managed
      ∙ outline-apply_stashing tools.shelf session cfg.stash deduped st
      ∙ outline-deduplicate_file_refs tools.json tools.marshal ms in
    elim (Bool-cases (leb_ℤ (pos (length ms)) cfg.keep_recent_turns)) [
      | inl few ↦ rw few refl
      | inr many ↦ rw many kept
    ]

-- Management keeps tool calls answered.
pub manage_conversation-Answered :
    {V : Type 0} (tools : Tools V) (session : String) (cfg : ManagementConfig) (ms : List Message)
    (st : Shelved)
    → Answered ms
    → Answered (manage_conversation tools session cfg ms st).0
manage_conversation-Answered tools session cfg ms st h =
    outline-Answered ms _ (outline-manage_conversation tools session cfg ms st) h
