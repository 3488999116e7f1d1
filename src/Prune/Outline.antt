-- ===== src/Prune/Outline.antt =====
-- The outline of a conversation: all of it but the texts, inputs and contents that
-- conversation/manage.go, dedup_files.go and stash.go rewrite.
use inber.Prelude.{
  String, ℕ, ◌≡◌, refl, sym, ap, subst, inl, inr, List, [], ◌∷◌, map, Bool, true, false, arith,
  if◌then◌else◌, Option-cases, Covers,
}
use mathlib.Core.Path.{ap₂}
use inber.Message.{
  Role, user, assistant, Block, text, tool_use, tool_result, thinking, redacted_thinking, other,
  ToolUse, ToolResult, Message, call_ids, answer_ids,
}
use inber.Repair.{calls}
use inber.Repair.Answered.{Answered, answers_after}
use inber.ManagementConfig.{ManagementConfig}
use inber.Prune.{
  Marshal, Pruned, prune_user_block, prune_assistant_block, prune_blocks, prune_block,
  prune_message, prune_tool_result, pruned_text, replace_tool_result_text, replace_tool_use_input,
  truncate_tool_call, tool_name,
}

abbrev pub outline_block : Block → Block
outline_block (text s) = text ""
outline_block (tool_use u) = tool_use (record u { input = "" })
outline_block (tool_result r) = tool_result (record r { content = [] })
outline_block (thinking s) = thinking s
outline_block (redacted_thinking s) = redacted_thinking s
outline_block (other s) = other s

abbrev pub outline_message : Message → Message
outline_message m = record m { content = map outline_block m.content }

abbrev pub outline : List Message → List Message
outline ms = map outline_message ms

pub outline_block-replace_tool_result_text :
    (r : ToolResult) (s : String)
    → outline_block (replace_tool_result_text r s) ≡ outline_block (tool_result r)
unfolding replace_tool_result_text
outline_block-replace_tool_result_text r s = refl

pub outline_block-replace_tool_use_input :
    (u : ToolUse) (s : String)
    → outline_block (replace_tool_use_input u s) ≡ outline_block (tool_use u)
unfolding replace_tool_use_input
outline_block-replace_tool_use_input u s = refl

pub outline_block-prune_tool_result :
    (cfg : ManagementConfig) (age : ℕ) (name : String) (r : ToolResult)
    → outline_block (prune_tool_result cfg age name r).0 ≡ outline_block (tool_result r)
unfolding prune_tool_result
outline_block-prune_tool_result cfg age name r = elim (Option-cases (pruned_text cfg age name r)) [
  | inl e ↦ rw e refl
  | inr (s, e) ↦ rw e (outline_block-replace_tool_result_text r s)
]

outline_block-prune_user_block :
    (cfg : ManagementConfig) (names : List (String × String)) (age : ℕ) (b : Block)
    → outline_block (prune_user_block cfg names age b).block ≡ outline_block b
unfolding prune_user_block
outline_block-prune_user_block cfg names age (tool_result r) =
    outline_block-prune_tool_result cfg age (tool_name names r.tool_use_id) r
outline_block-prune_user_block cfg names age (text s) = refl
outline_block-prune_user_block cfg names age (tool_use u) = refl
outline_block-prune_user_block cfg names age (thinking s) = refl
outline_block-prune_user_block cfg names age (redacted_thinking s) = refl
outline_block-prune_user_block cfg names age (other s) = refl

outline_block-prune_assistant_block :
    (marshal : Marshal) (cfg : ManagementConfig) (age : ℕ) (b : Block)
    → outline_block (prune_assistant_block marshal cfg age b).block ≡ outline_block b
unfolding prune_assistant_block truncate_tool_call replace_tool_use_input
outline_block-prune_assistant_block marshal cfg age (text s) = ground arith
outline_block-prune_assistant_block marshal cfg age (tool_use u) = ground arith
outline_block-prune_assistant_block marshal cfg age (tool_result r) = refl
outline_block-prune_assistant_block marshal cfg age (thinking s) = refl
outline_block-prune_assistant_block marshal cfg age (redacted_thinking s) = refl
outline_block-prune_assistant_block marshal cfg age (other s) = refl

outline_block-prune_block :
    (marshal : Marshal) (cfg : ManagementConfig) (names : List (String × String)) (age : ℕ)
    (role : Role) (b : Block)
    → outline_block (prune_block marshal cfg names age role b).block ≡ outline_block b
outline_block-prune_block marshal cfg names age user b =
    outline_block-prune_user_block cfg names age b
outline_block-prune_block marshal cfg names age assistant b =
    outline_block-prune_assistant_block marshal cfg age b

outline-prune_blocks :
    (f : Block → Pruned)
    → ((b : Block) → outline_block (f b).block ≡ outline_block b)
    → (bs : List Block) → map outline_block (prune_blocks f bs).0 ≡ map outline_block bs
unfolding prune_blocks
outline-prune_blocks f h [] = refl
outline-prune_blocks f h (b ∷ bs) = ap₂ (◌∷◌) (h b) (outline-prune_blocks f h bs)

pub outline_message-prune_message :
    (marshal : Marshal) (cfg : ManagementConfig) (names : List (String × String)) (age : ℕ)
    (m : Message)
    → outline_message (prune_message marshal cfg names age m).0 ≡ outline_message m
unfolding prune_message
outline_message-prune_message marshal cfg names age m =
    go (prune_blocks (prune_block marshal cfg names age m.role) m.content).1 refl
  where
    go :
        (pruned : Bool)
        → (prune_blocks (prune_block marshal cfg names age m.role) m.content).1 ≡ pruned
        → outline_message (
            if pruned
            then record m {
              content = (prune_blocks (prune_block marshal cfg names age m.role) m.content).0;
            }
            else m)
          ≡ outline_message m
    go true e =
        ap (λ c. record m { content = c })
          (outline-prune_blocks (prune_block marshal cfg names age m.role)
            (outline_block-prune_block marshal cfg names age m.role) m.content)
    go false e = refl

-- What a conversation answers, and how its roles alternate, can be read off its outline.
call_ids-outline : (bs : List Block) → call_ids (map outline_block bs) ≡ call_ids bs
call_ids-outline [] = refl
call_ids-outline (text s ∷ bs) = call_ids-outline bs
call_ids-outline (tool_use u ∷ bs) = ap (◌∷◌ u.id) (call_ids-outline bs)
call_ids-outline (tool_result r ∷ bs) = call_ids-outline bs
call_ids-outline (thinking s ∷ bs) = call_ids-outline bs
call_ids-outline (redacted_thinking s ∷ bs) = call_ids-outline bs
call_ids-outline (other s ∷ bs) = call_ids-outline bs

answer_ids-outline : (bs : List Block) → answer_ids (map outline_block bs) ≡ answer_ids bs
answer_ids-outline [] = refl
answer_ids-outline (text s ∷ bs) = answer_ids-outline bs
answer_ids-outline (tool_use u ∷ bs) = answer_ids-outline bs
answer_ids-outline (tool_result r ∷ bs) = ap (◌∷◌ r.tool_use_id) (answer_ids-outline bs)
answer_ids-outline (thinking s ∷ bs) = answer_ids-outline bs
answer_ids-outline (redacted_thinking s ∷ bs) = answer_ids-outline bs
answer_ids-outline (other s ∷ bs) = answer_ids-outline bs

calls-outline : (m : Message) → calls (outline_message m) ≡ calls m
calls-outline m = rw (call_ids-outline m.content) refl

answers_after-outline : (ms : List Message) → answers_after (outline ms) ≡ answers_after ms
answers_after-outline [] = refl
answers_after-outline (m ∷ ms) = rw (answer_ids-outline m.content) refl

Answered-outline : (ms : List Message) → Path (Type 0) (Answered (outline ms)) (Answered ms)
Answered-outline [] = refl
Answered-outline (m ∷ ms) =
    ap₂ (λ A B. A × B) (ap₂ Covers (answers_after-outline ms) (calls-outline m))
      (Answered-outline ms)

pub outline-Answered : (ms ns : List Message) → outline ns ≡ outline ms → Answered ms → Answered ns
outline-Answered ms ns e h =
    subst (λ A. A) (Answered-outline ns)
      (subst Answered (sym e) (subst (λ A. A) (sym (Answered-outline ms)) h))
