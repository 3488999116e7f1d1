-- ===== src/Prune/Recent.antt =====
-- conversation/manage.go, the pruning loop: what is recent.
use inber.Prelude.{ℕ, ◌≤◌, ◌<◌, String, List, [], ◌∷◌, ◌≡◌, refl, true, false, none, arith}
use inber.Prelude.Int.{pos, ◌≤ℤ◌, leb_ℤ, ltb_ℤ}
use inber.Message.{
  Role, user, assistant, Block, text, tool_use, tool_result, thinking, redacted_thinking, other,
  ToolResult, Message,
}
use inber.ManagementConfig.{ManagementConfig}
use inber.Prune.{
  Marshal, Pruned, untouched, no_tally, pruned_text, prune_tool_result, prune_user_block,
  prune_assistant_block, prune_block, prune_blocks, prune_message, ages_and_turns,
}

-- How many messages are the user's.
abbrev pub turns : List Message → ℕ
turns ms = (ages_and_turns ms).1

-- The last `n` turns are within all the ages up to which content is kept.
abbrev pub KeepsFull : ManagementConfig → ℕ → Type 0
KeepsFull cfg n =
    (pos n ≤ℤ cfg.tool_result_keep_full)
    × (pos n ≤ℤ cfg.tool_result_drop)
    × (pos n ≤ℤ cfg.assistant_truncate_after)
    × (pos n ≤ℤ cfg.tool_call_keep_full)

-- A message is recent if it is among the last `n` turns.
abbrev pub IsRecent : ℕ → ℕ → Role → Type 0
IsRecent n age user = age < n
IsRecent n age assistant = age ≤ n

module _ (marshal : Marshal) (cfg : ManagementConfig) (names : List (String × String)) (n : ℕ)
    (keeps : KeepsFull cfg n) where
  pruned_text-recent :
      (age : ℕ) (name : String) (r : ToolResult) → age < n → pruned_text cfg age name r ≡ none
  unfolding pruned_text
  pruned_text-recent age name r young =
      let late : leb_ℤ cfg.tool_result_drop (pos age) ≡ false = ground arith in
      let full : ltb_ℤ (pos age) cfg.tool_result_keep_full ≡ true = ground arith in
      rw (late, full) refl

  prune_user_block-recent :
      (age : ℕ) (b : Block) → age < n → prune_user_block cfg names age b ≡ untouched b
  unfolding prune_user_block prune_tool_result
  prune_user_block-recent age (tool_result r) young = rw (pruned_text-recent age _ r young) refl
  prune_user_block-recent age (text s) young = refl
  prune_user_block-recent age (tool_use u) young = refl
  prune_user_block-recent age (thinking s) young = refl
  prune_user_block-recent age (redacted_thinking s) young = refl
  prune_user_block-recent age (other s) young = refl

  prune_assistant_block-recent :
      (age : ℕ) (b : Block) → age ≤ n → prune_assistant_block marshal cfg age b ≡ untouched b
  unfolding prune_assistant_block
  prune_assistant_block-recent age (text s) young =
      let kept : ltb_ℤ cfg.assistant_truncate_after (pos age) ≡ false = ground arith in rw kept refl
  prune_assistant_block-recent age (tool_use u) young =
      let kept : ltb_ℤ cfg.tool_call_keep_full (pos age) ≡ false = ground arith in rw kept refl
  prune_assistant_block-recent age (tool_result r) young = refl
  prune_assistant_block-recent age (thinking s) young = refl
  prune_assistant_block-recent age (redacted_thinking s) young = refl
  prune_assistant_block-recent age (other s) young = refl

  prune_blocks-untouched :
      (f : Block → Pruned)
      → ((b : Block) → f b ≡ untouched b)
      → (bs : List Block) → prune_blocks f bs ≡ (bs, false, no_tally)
  unfolding prune_blocks
  prune_blocks-untouched f h [] = refl
  prune_blocks-untouched f h (b ∷ bs) = rw (h b, prune_blocks-untouched f h bs) refl

  prune_block-recent :
      (age : ℕ) (role : Role) (b : Block)
      → IsRecent n age role
      → prune_block marshal cfg names age role b ≡ untouched b
  prune_block-recent age user b young = prune_user_block-recent age b young
  prune_block-recent age assistant b young = prune_assistant_block-recent age b young

  pub prune_message-recent :
      (age : ℕ) (m : Message)
      → IsRecent n age m.role
      → prune_message marshal cfg names age m ≡ (m, false, no_tally)
  unfolding prune_message
  prune_message-recent age m young =
      rw
        (prune_blocks-untouched (prune_block marshal cfg names age m.role)
          (λ b. prune_block-recent age m.role b young) m.content)
        refl
