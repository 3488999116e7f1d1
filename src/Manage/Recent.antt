-- ===== src/Manage/Recent.antt =====
-- conversation/manage.go, the pruning loop over a conversation: its recent end.
use inber.Prelude.{
  ℕ, suc, ◌≤◌, String, List, [], ◌∷◌, ◌++◌, ◌≡◌, refl, ap, ◌∙◌, true, false, arith, if◌then◌else◌,
  length, drop,
}
use mathlib.Core.Path.{ap₂}
use inber.Message.{Role, user, assistant, Message}
use inber.ManagementConfig.{ManagementConfig}
use inber.Prune.{Marshal, prune_message, ages_and_turns, compute_ages}
use inber.Prune.Recent.{KeepsFull, IsRecent, turns, prune_message-recent}
use inber.Estimate.{Estimator}
use inber.Manage.{Pruning, prune_messages, onto_pruning}

-- The age of a message is the number of turns behind it.
turns-IsRecent :
    (n : ℕ) (m : Message) (ms : List Message) → turns (m ∷ ms) ≤ n → IsRecent n (turns ms) m.role
unfolding ages_and_turns
turns-IsRecent n m ms h = go m.role h
  where
    go :
        (role : Role)
        → (if (elim role [ user ↦ true | assistant ↦ false ]) then suc (turns ms) else turns ms) ≤ n
        → IsRecent n (turns ms) role
    go user h = omega arith
    go assistant h = h

turns-tail : (n : ℕ) (m : Message) (ms : List Message) → turns (m ∷ ms) ≤ n → turns ms ≤ n
unfolding ages_and_turns
turns-tail n m ms h = ground arith

module _ (estimator : Estimator) (marshal : Marshal) (cfg : ManagementConfig)
    (names : List (String × String)) where
  abbrev pruned : List Message → Pruning
  pruned ms = prune_messages estimator marshal cfg names (compute_ages ms) ms

  pruned-cons :
      (m : Message) (ms : List Message)
      → pruned (m ∷ ms)
        ≡ onto_pruning estimator m (prune_message marshal cfg names (turns ms) m) (pruned ms)
  unfolding prune_messages compute_ages ages_and_turns
  pruned-cons m ms = refl

  pruned-recent :
      (n : ℕ) (ms : List Message) → KeepsFull cfg n → turns ms ≤ n → (pruned ms).final_messages ≡ ms
  unfolding prune_messages
  pruned-recent n [] keeps few = refl
  pruned-recent n (m ∷ ms) keeps few =
      ap (λ p. p.final_messages) (pruned-cons m ms)
      ∙ ap₂ (◌∷◌)
          (ap (λ p. p.0)
            (prune_message-recent marshal cfg names n keeps (turns ms) m
              (turns-IsRecent n m ms few)))
          (pruned-recent n ms keeps (turns-tail n m ms few))

  -- The messages of the last turns are as they were, if they are within the ages that are kept in full.
  pub prune_messages-recent :
      (n : ℕ) (older recent : List Message)
      → KeepsFull cfg n
      → turns recent ≤ n
      → drop (length older) (pruned (older ++ recent)).final_messages ≡ recent
  prune_messages-recent n [] recent keeps few = pruned-recent n recent keeps few
  prune_messages-recent n (m ∷ older) recent keeps few =
      ap (λ p. drop (suc (length older)) p.final_messages) (pruned-cons m (older ++ recent))
      ∙ prune_messages-recent n older recent keeps few
