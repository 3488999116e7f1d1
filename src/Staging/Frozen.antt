-- ===== src/Staging/Frozen.antt =====
-- conversation/staged.go, `ManageStaging`: the frozen zone, and what the staging zone keeps.
use inber.Prelude.{
  ℕ, zero, suc, String, List, [], ◌∷◌, ◌++◌, ◌≡◌, refl, ap, sym, ◌∙◌, inl, inr, map, length, take,
  drop, leb, false, Bool-cases, take-append-drop, arith,
}
use mathlib.Core.Path.{ap₂}
use mathlib.Core.List.{map-append}
use inber.Message.{Block, text, tool_use, tool_result, thinking, redacted_thinking, other, Message}
use inber.Repair.{is_user}
use inber.ReadCache.{Json}
use inber.ManagementConfig.{ManagementConfig}
use inber.Prune.{Marshal, tool_name}
use inber.Prune.Outline.{outline_block, outline_message, outline, outline_block-prune_tool_result}
use inber.Dedup.{deduplicate_file_refs}
use inber.Dedup.Rewriting.{outline-deduplicate_file_refs}
use inber.Staging.{prune_staged_block, prune_staged_blocks, prune_staging, manage_staging}

outline_block-prune_staged_block :
    (cfg : ManagementConfig) (names : List (String × String)) (age : ℕ) (b : Block)
    → outline_block (prune_staged_block cfg names age b) ≡ outline_block b
unfolding prune_staged_block
outline_block-prune_staged_block cfg names age (tool_result r) =
    outline_block-prune_tool_result cfg age (tool_name names r.tool_use_id) r
outline_block-prune_staged_block cfg names age (text s) = refl
outline_block-prune_staged_block cfg names age (tool_use u) = refl
outline_block-prune_staged_block cfg names age (thinking s) = refl
outline_block-prune_staged_block cfg names age (redacted_thinking s) = refl
outline_block-prune_staged_block cfg names age (other s) = refl

outline-prune_staged_blocks :
    (cfg : ManagementConfig) (names : List (String × String)) (age : ℕ) (bs : List Block)
    → map outline_block (prune_staged_blocks cfg names age bs) ≡ map outline_block bs
outline-prune_staged_blocks cfg names age [] = refl
outline-prune_staged_blocks cfg names age (b ∷ bs) =
    ap₂ (◌∷◌) (outline_block-prune_staged_block cfg names age b)
      (outline-prune_staged_blocks cfg names age bs)

outline-prune_staging :
    (cfg : ManagementConfig) (names : List (String × String)) (ages : List ℕ) (ms : List Message)
    → outline (prune_staging cfg names ages ms) ≡ outline ms
unfolding prune_staging
outline-prune_staging cfg names ages [] = refl
outline-prune_staging cfg names [] (m ∷ ms) = refl
outline-prune_staging cfg names (age ∷ ages) (m ∷ ms) = elim (Bool-cases (is_user m)) [
  | inl e ↦ rw e (
      ap₂ (◌∷◌)
        (ap (λ c. record m { content = c }) (outline-prune_staged_blocks cfg names age m.content))
        (outline-prune_staging cfg names ages ms))
  | inr e ↦ rw e (ap (◌∷◌ (outline_message m)) (outline-prune_staging cfg names ages ms))
]

take-append_take :
    {A : Type 0} (n : ℕ) (xs ys : List A)
    → leb (length xs) n ≡ false
    → take n (take n xs ++ ys) ≡ take n xs
take-append_take zero xs ys h = refl
take-append_take (suc n) [] ys h = ground arith
take-append_take (suc n) (x ∷ xs) ys h = ap (◌∷◌ x) (take-append_take n xs ys (ground arith))

outline-behind :
    (n : ℕ) (ms after : List Message)
    → outline after ≡ outline (drop n ms)
    → outline (take n ms ++ after) ≡ outline ms
outline-behind n ms after e =
    map-append outline_message (take n ms) after
    ∙ ap (λ ns. outline (take n ms) ++ ns) e
    ∙ sym (map-append outline_message (take n ms) (drop n ms))
    ∙ ap outline (take-append-drop n ms)

-- Management of the staging zone leaves the frozen zone as it is, and of the staging zone the outline.
pub manage_staging-IsFrozen :
    {V : Type 0} (json : Json V) (marshal : Marshal) (frozen_idx : ℕ) (cfg : ManagementConfig)
    (ms : List Message)
    → (take frozen_idx (manage_staging json marshal frozen_idx cfg ms).0 ≡ take frozen_idx ms)
      × (outline (manage_staging json marshal frozen_idx cfg ms).0 ≡ outline ms)
unfolding manage_staging
manage_staging-IsFrozen json marshal frozen_idx cfg ms =
    elim (Bool-cases (leb (length ms) frozen_idx)) [
      | inl all ↦ rw all (refl, refl)
      | inr part ↦ rw part (
        take-append_take frozen_idx ms _ part,
        outline-behind frozen_idx ms _ (
            outline-prune_staging cfg _ _
              (deduplicate_file_refs json marshal (drop frozen_idx ms)).0
            ∙ outline-deduplicate_file_refs json marshal (drop frozen_idx ms)),
      )
    ]
