-- ===== src/Dedup/Rewriting.antt =====
-- conversation/dedup_files.go: what the stubs replace.
use inber.Prelude.{
  String, ◌≡◌, refl, ap, ◌∙◌, inl, inr, List, [], ◌∷◌, map, Bool-cases, Option-cases, ltb, length,
  Option, none, some, str_eq,
}
use mathlib.Core.Path.{ap₂}
use inber.Message.{Block, text, tool_use, tool_result, thinking, redacted_thinking, other, Message}
use inber.Repair.{is_user, is_assistant}
use inber.ReadCache.{Json, entry}
use inber.Prune.{Marshal, extract_tool_result_content}
use inber.Prune.Outline.{
  outline_block, outline_message, outline, outline_block-replace_tool_result_text,
  outline_block-replace_tool_use_input,
}
use inber.Dedup.{
  collect_refs, stub_result, stub_results, stub_messages, stub_input, stub_inputs, stub_calls,
  rewritten, deduplicate_file_refs,
}

outline_block-stub_result :
    (stubs : List (String × String)) (b : Block)
    → outline_block (stub_result stubs b).0 ≡ outline_block b
unfolding stub_result
outline_block-stub_result stubs (tool_result r) = go (entry r.tool_use_id stubs) refl
  where
    go :
        (found : Option String)
        → entry r.tool_use_id stubs ≡ found
        → outline_block (stub_result stubs (tool_result r)).0 ≡ outline_block (tool_result r)
    go none e = rw e refl
    go (some stub) e = elim (Bool-cases (str_eq (extract_tool_result_content r) stub)) [
      | inl same ↦ rw (e, same) refl
      | inr new ↦ rw (e, new) (outline_block-replace_tool_result_text r stub)
    ]
outline_block-stub_result stubs (text s) = refl
outline_block-stub_result stubs (tool_use u) = refl
outline_block-stub_result stubs (thinking s) = refl
outline_block-stub_result stubs (redacted_thinking s) = refl
outline_block-stub_result stubs (other s) = refl

outline-stub_results :
    (stubs : List (String × String)) (bs : List Block)
    → map outline_block (stub_results stubs bs).0 ≡ map outline_block bs
unfolding stub_results
outline-stub_results stubs [] = refl
outline-stub_results stubs (b ∷ bs) =
    ap₂ (◌∷◌) (outline_block-stub_result stubs b) (outline-stub_results stubs bs)

outline-stub_messages :
    (stubs : List (String × String)) (ms : List Message)
    → outline (stub_messages stubs ms).0 ≡ outline ms
unfolding stub_messages
outline-stub_messages stubs [] = refl
outline-stub_messages stubs (m ∷ ms) = elim (Bool-cases (is_user m)) [
  | inl e ↦ rw e (
      ap₂ (◌∷◌) (ap (λ c. record m { content = c }) (outline-stub_results stubs m.content))
        (outline-stub_messages stubs ms))
  | inr e ↦ rw e (ap (◌∷◌ (outline_message m)) (outline-stub_messages stubs ms))
]

outline_block-stub_input :
    (marshal : Marshal) (stubs : List (String × String)) (b : Block)
    → outline_block (stub_input marshal stubs b) ≡ outline_block b
unfolding stub_input
outline_block-stub_input marshal stubs (tool_use u) = elim (Option-cases (entry u.id stubs)) [
  | inl e ↦ rw e refl
  | inr (stub, e) ↦ rw e (outline_block-replace_tool_use_input u marshal.deduped_input)
]
outline_block-stub_input marshal stubs (text s) = refl
outline_block-stub_input marshal stubs (tool_result r) = refl
outline_block-stub_input marshal stubs (thinking s) = refl
outline_block-stub_input marshal stubs (redacted_thinking s) = refl
outline_block-stub_input marshal stubs (other s) = refl

outline-stub_inputs :
    (marshal : Marshal) (stubs : List (String × String)) (bs : List Block)
    → map outline_block (stub_inputs marshal stubs bs) ≡ map outline_block bs
unfolding stub_inputs
outline-stub_inputs marshal stubs [] = refl
outline-stub_inputs marshal stubs (b ∷ bs) =
    ap₂ (◌∷◌) (outline_block-stub_input marshal stubs b) (outline-stub_inputs marshal stubs bs)

outline-stub_calls :
    (marshal : Marshal) (stubs : List (String × String)) (ms : List Message)
    → outline (stub_calls marshal stubs ms) ≡ outline ms
unfolding stub_calls
outline-stub_calls marshal stubs [] = refl
outline-stub_calls marshal stubs (m ∷ ms) = elim (Bool-cases (is_assistant m)) [
  | inl e ↦ rw e (
      ap₂ (◌∷◌) (ap (λ c. record m { content = c }) (outline-stub_inputs marshal stubs m.content))
        (outline-stub_calls marshal stubs ms))
  | inr e ↦ rw e (ap (◌∷◌ (outline_message m)) (outline-stub_calls marshal stubs ms))
]

outline-rewritten :
    (marshal : Marshal) (ms : List Message) (stubs : List (String × String))
    → outline (rewritten marshal ms stubs).0 ≡ outline ms
outline-rewritten marshal ms [] = refl
outline-rewritten marshal ms (stub ∷ stubs) =
    outline-stub_calls marshal (stub ∷ stubs) (stub_messages (stub ∷ stubs) ms).0
    ∙ outline-stub_messages (stub ∷ stubs) ms

pub outline-deduplicate_file_refs :
    {V : Type 0} (json : Json V) (marshal : Marshal) (ms : List Message)
    → outline (deduplicate_file_refs json marshal ms).0 ≡ outline ms
unfolding deduplicate_file_refs
outline-deduplicate_file_refs json marshal ms =
    elim (Bool-cases (ltb (length (collect_refs json ms)) 2)) [
      | inl few ↦ rw few refl
      | inr many ↦ rw many (outline-rewritten marshal ms _)
    ]
