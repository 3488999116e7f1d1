-- ===== src/Repair/Content.antt =====
-- What conversation/repair.go's `RepairEmptyContent` and `RepairThinkingSignatures` leave.
use inber.Prelude.{
  ◌≡◌, ◌≢◌, refl, sym, ap, ◌∙◌, List, [], ◌∷◌, ◌++◌, true, false, arith, if◌then◌else◌, All,
  Bool-cases, inl, inr, Covers,
}
use mathlib.Core.Bool.{false≢true}
use inber.Message.{
  Block, text, tool_use, tool_result, thinking, redacted_thinking, other, Message, call_ids,
}
use mathlib.Core.Path.{subst₂}
use inber.Repair.Answered.{Answered, answers_after}
use inber.Repair.{
  is_assistant, calls, is_empty_text, drop_empty_text, unless_empty, repair_empty_content,
  is_thinking, drop_thinking, or_placeholder, repair_thinking_signatures,
}

-- What the API takes: some content, and no empty text block in it.
abbrev pub HasContent : Message → Type 0
HasContent m = (m.content ≢ []) × All (λ b. b ≢ text "") m.content

is_empty_text-eq_false : (b : Block) → is_empty_text b ≡ false → b ≢ text ""
is_empty_text-eq_false b e h = false≢true (sym e ∙ ap is_empty_text h)

drop_empty_text-All : (bs : List Block) → All (λ b. b ≢ text "") (drop_empty_text bs)
unfolding drop_empty_text
drop_empty_text-All [] = tt
drop_empty_text-All (b ∷ bs) = elim (Bool-cases (is_empty_text b)) [
  | inl e ↦ rw e (drop_empty_text-All bs)
  | inr e ↦ rw e (is_empty_text-eq_false b e, drop_empty_text-All bs)
]

unless_empty-All :
    (m : Message) (bs : List Block) (rest : List Message)
    → All (λ b. b ≢ text "") bs
    → All HasContent rest
    → All HasContent (unless_empty m bs rest)
unless_empty-All m [] rest h r = r
unless_empty-All m (b ∷ bs) rest h r = (((λ e. cc), h), r)

-- Afterwards no message is empty and none holds an empty text block.
pub repair_empty_content-All : (ms : List Message) → All HasContent (repair_empty_content ms)
unfolding repair_empty_content
repair_empty_content-All [] = tt
repair_empty_content-All (m ∷ rest) =
    unless_empty-All m (drop_empty_text m.content) (repair_empty_content rest)
      (drop_empty_text-All m.content) (repair_empty_content-All rest)

-- All blocks of a transcript, in order.
abbrev pub blocks : List Message → List Block
blocks [] = []
blocks (m ∷ ms) = m.content ++ blocks ms

drop_empty_text-append :
    (xs ys : List Block) → drop_empty_text (xs ++ ys) ≡ drop_empty_text xs ++ drop_empty_text ys
unfolding drop_empty_text
drop_empty_text-append [] ys = refl
drop_empty_text-append (x ∷ xs) ys = ground (arith, drop_empty_text-append xs ys)

blocks-unless_empty :
    (m : Message) (bs : List Block) (rest : List Message)
    → blocks (unless_empty m bs rest) ≡ bs ++ blocks rest
blocks-unless_empty m [] rest = refl
blocks-unless_empty m (b ∷ bs) rest = refl

-- Only the empty text blocks are gone: all others stand in the order in which they stood.
pub blocks-repair_empty_content :
    (ms : List Message) → blocks (repair_empty_content ms) ≡ drop_empty_text (blocks ms)
unfolding repair_empty_content
blocks-repair_empty_content [] = refl
blocks-repair_empty_content (m ∷ rest) =
    blocks-unless_empty m (drop_empty_text m.content) (repair_empty_content rest)
    ∙ ap (◌++◌ (drop_empty_text m.content)) (blocks-repair_empty_content rest)
    ∙ sym (drop_empty_text-append m.content (blocks rest))

-- No block of an assistant message is bound to the credentials that made it, and none is empty.
abbrev pub IsPortable : Message → Type 0
IsPortable m = is_assistant m ≡ true → (m.content ≢ []) × All (λ b. is_thinking b ≡ false) m.content

drop_thinking-All : (bs : List Block) → All (λ b. is_thinking b ≡ false) (drop_thinking bs)
unfolding drop_thinking
drop_thinking-All [] = tt
drop_thinking-All (b ∷ bs) = elim (Bool-cases (is_thinking b)) [
  | inl e ↦ rw e (drop_thinking-All bs)
  | inr e ↦ rw e (e, drop_thinking-All bs)
]

or_placeholder-All :
    (bs : List Block)
    → All (λ b. is_thinking b ≡ false) bs
    → (or_placeholder bs ≢ []) × All (λ b. is_thinking b ≡ false) (or_placeholder bs)
or_placeholder-All [] h = ((λ e. cc), (refl, tt))
or_placeholder-All (b ∷ bs) h = ((λ e. cc), h)

stripped-IsPortable :
    (m : Message)
    → IsPortable (
        if is_assistant m
        then record m { content = or_placeholder (drop_thinking m.content) }
        else m)
stripped-IsPortable m = elim (Bool-cases (is_assistant m)) [
  | inl a ↦ rw a (λ _. or_placeholder-All (drop_thinking m.content) (drop_thinking-All m.content))
  | inr u ↦ rw u (λ h. absurd (false≢true (sym u ∙ h)))
]

-- After the credentials change, the assistant's messages hold no thinking, and none is empty.
pub repair_thinking_signatures-All :
    (ms : List Message) → All IsPortable (repair_thinking_signatures ms)
unfolding repair_thinking_signatures
repair_thinking_signatures-All [] = tt
repair_thinking_signatures-All (m ∷ rest) =
    (stripped-IsPortable m, repair_thinking_signatures-All rest)

call_ids-drop_thinking : (bs : List Block) → call_ids (drop_thinking bs) ≡ call_ids bs
unfolding drop_thinking
call_ids-drop_thinking [] = refl
call_ids-drop_thinking (text s ∷ bs) = call_ids-drop_thinking bs
call_ids-drop_thinking (tool_use u ∷ bs) = ap (◌∷◌ u.id) (call_ids-drop_thinking bs)
call_ids-drop_thinking (tool_result r ∷ bs) = call_ids-drop_thinking bs
call_ids-drop_thinking (thinking s ∷ bs) = call_ids-drop_thinking bs
call_ids-drop_thinking (redacted_thinking s ∷ bs) = call_ids-drop_thinking bs
call_ids-drop_thinking (other s ∷ bs) = call_ids-drop_thinking bs

call_ids-or_placeholder : (bs : List Block) → call_ids (or_placeholder bs) ≡ call_ids bs
call_ids-or_placeholder [] = refl
call_ids-or_placeholder (b ∷ bs) = refl

calls_stripped :
    (m : Message)
    → calls (
        if is_assistant m
        then record m { content = or_placeholder (drop_thinking m.content) }
        else m)
      ≡ calls m
calls_stripped m =
    ground
      (arith, call_ids-or_placeholder (drop_thinking m.content), call_ids-drop_thinking m.content)

answers_after-repair_thinking_signatures :
    (ms : List Message) → answers_after (repair_thinking_signatures ms) ≡ answers_after ms
unfolding repair_thinking_signatures
answers_after-repair_thinking_signatures [] = refl
answers_after-repair_thinking_signatures (m ∷ rest) = ground arith

-- Tool calls and their results are untouched: a transcript that answers its calls still does.
pub repair_thinking_signatures-Answered :
    (ms : List Message) → Answered ms → Answered (repair_thinking_signatures ms)
unfolding repair_thinking_signatures
repair_thinking_signatures-Answered [] h = tt
repair_thinking_signatures-Answered (m ∷ rest) (c, h) = (
  subst₂ Covers (sym (answers_after-repair_thinking_signatures rest)) (sym (calls_stripped m)) c,
  repair_thinking_signatures-Answered rest h,
)
