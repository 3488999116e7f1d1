-- ===== src/Turns/Orphans.antt =====
-- What `stripOrphanedToolResults` (conversation/message_utils.go) leaves.
use mathlib.Core.Bool.{false≢true}
use inber.Prelude.{
  String, ◌≡◌, refl, sym, ap, subst, ◌∙◌, inl, inr, List, [], ◌∷◌, ◌++◌, true, contains, Covers,
  Covers-refl, All-append, if◌then◌else◌, arith, Bool-cases, str_eq, eq_iff,
}
use inber.Message.{
  Block, text, tool_use, tool_result, thinking, redacted_thinking, other, Message, answer_ids,
}
use inber.Repair.{is_user, calls}
use inber.Repair.Answered.{Answered, answers_after}
use inber.Turns.{
  collect_tool_use_ids, keep_blocks, cleaned, strip_within, strip_orphaned_tool_results,
}

keep_blocks-Covers :
    (existing : List String) (bs : List Block)
    → Covers existing (answer_ids (keep_blocks existing bs))
unfolding keep_blocks
keep_blocks-Covers existing [] = tt
keep_blocks-Covers existing (text s ∷ bs) = keep_blocks-Covers existing bs
keep_blocks-Covers existing (tool_use u ∷ bs) = keep_blocks-Covers existing bs
keep_blocks-Covers existing (thinking s ∷ bs) = keep_blocks-Covers existing bs
keep_blocks-Covers existing (redacted_thinking s ∷ bs) = keep_blocks-Covers existing bs
keep_blocks-Covers existing (other s ∷ bs) = keep_blocks-Covers existing bs
keep_blocks-Covers existing (tool_result r ∷ bs) =
    elim (Bool-cases (contains existing r.tool_use_id)) [
      | inl e ↦ rw e (e, keep_blocks-Covers existing bs)
      | inr e ↦ rw e (keep_blocks-Covers existing bs)
    ]

-- The tool results of the user's messages.
abbrev pub answers : Message → List String
answers m = if is_user m then answer_ids m.content else []

unfoldable pub all_answers : List Message → List String
all_answers [] = []
all_answers (m ∷ ms) = answers m ++ all_answers ms

collect-cleaned :
    (m : Message) (bs : List Block) (rest : List Message)
    → is_user m ≡ true
    → collect_tool_use_ids (cleaned m bs rest) ≡ collect_tool_use_ids rest
unfolding collect_tool_use_ids
collect-cleaned m [] rest u = refl
collect-cleaned m (b ∷ bs) rest u = ground arith

collect-strip_within :
    (existing : List String) (ms : List Message)
    → collect_tool_use_ids (strip_within existing ms) ≡ collect_tool_use_ids ms
unfolding strip_within collect_tool_use_ids
collect-strip_within existing [] = refl
collect-strip_within existing (m ∷ ms) = elim (Bool-cases (is_user m)) [
  | inl u ↦ rw u (
      collect-cleaned m (keep_blocks existing m.content) (strip_within existing ms) u
      ∙ collect-strip_within existing ms
      ∙ ground arith)
  | inr a ↦ rw a (ap (◌++◌ (calls m)) (collect-strip_within existing ms))
]

Covers-append :
    (known xs ys : List String) → Covers known xs → Covers known ys → Covers known (xs ++ ys)
Covers-append known xs ys = All-append (λ s. contains known s ≡ true) xs ys

Covers-cleaned :
    (known : List String) (m : Message) (bs : List Block) (rest : List Message)
    → is_user m ≡ true
    → Covers known (answer_ids bs)
    → Covers known (all_answers rest)
    → Covers known (all_answers (cleaned m bs rest))
unfolding all_answers
Covers-cleaned known m [] rest u h k = k
Covers-cleaned known m (b ∷ bs) rest u h k =
    Covers-append known (answers (record m { content = b ∷ bs })) (all_answers rest) (rw u h) k

all_answers-strip_within :
    (existing : List String) (ms : List Message)
    → Covers existing (all_answers (strip_within existing ms))
unfolding strip_within all_answers
all_answers-strip_within existing [] = tt
all_answers-strip_within existing (m ∷ ms) = elim (Bool-cases (is_user m)) [
  | inl u ↦ rw u (
      Covers-cleaned existing m (keep_blocks existing m.content) (strip_within existing ms) u
        (keep_blocks-Covers existing m.content) (all_answers-strip_within existing ms))
  | inr a ↦ rw a (
      Covers-append existing (answers m) (all_answers (strip_within existing ms)) (rw a tt)
        (all_answers-strip_within existing ms))
]

-- Afterwards each tool result of the user's messages answers a call that is there.
pub strip_orphaned_tool_results-Covers :
    (ms : List Message)
    → Covers
        (collect_tool_use_ids (strip_orphaned_tool_results ms))
        (all_answers (strip_orphaned_tool_results ms))
unfolding strip_orphaned_tool_results
strip_orphaned_tool_results-Covers ms =
    subst (λ known. Covers known (all_answers (strip_within (collect_tool_use_ids ms) ms)))
      (sym (collect-strip_within (collect_tool_use_ids ms) ms))
      (all_answers-strip_within (collect_tool_use_ids ms) ms)

keep_blocks-answer :
    (existing : List String) (bs : List Block) (id : String)
    → contains existing id ≡ true
    → contains (answer_ids bs) id ≡ true
    → contains (answer_ids (keep_blocks existing bs)) id ≡ true
unfolding keep_blocks
keep_blocks-answer existing [] id e h = h
keep_blocks-answer existing (text s ∷ bs) id e h = keep_blocks-answer existing bs id e h
keep_blocks-answer existing (tool_use u ∷ bs) id e h = keep_blocks-answer existing bs id e h
keep_blocks-answer existing (thinking s ∷ bs) id e h = keep_blocks-answer existing bs id e h
keep_blocks-answer existing (redacted_thinking s ∷ bs) id e h =
    keep_blocks-answer existing bs id e h
keep_blocks-answer existing (other s ∷ bs) id e h = keep_blocks-answer existing bs id e h
keep_blocks-answer existing (tool_result r ∷ bs) id e h =
    elim (Bool-cases (str_eq r.tool_use_id id)) [
      | inl same ↦
          rw (subst (λ x. contains existing x ≡ true) (sym ((eq_iff r.tool_use_id id).0 same)) e)
            (ground arith)
      | inr differs ↦ elim (Bool-cases (contains existing r.tool_use_id)) [
        | inl k ↦ rw (k, differs) (keep_blocks-answer existing bs id e (rw differs at h))
        | inr k ↦ rw k (keep_blocks-answer existing bs id e (rw differs at h))
      ]
    ]

keep_blocks-answers :
    (existing : List String) (bs : List Block) (wanted : List String)
    → Covers existing wanted
    → Covers (answer_ids bs) wanted
    → Covers (answer_ids (keep_blocks existing bs)) wanted
keep_blocks-answers existing bs [] e h = tt
keep_blocks-answers existing bs (id ∷ ids) (e, es) (h, hs) =
    (keep_blocks-answer existing bs id e h, keep_blocks-answers existing bs ids es hs)

Covers-of_nil : (known wanted : List String) → Covers [] wanted → Covers known wanted
Covers-of_nil known [] h = tt
Covers-of_nil known (w ∷ ws) (h, _) = absurd (false≢true h)

answers_after-cleaned :
    (m : Message) (bs : List Block) (rest : List Message) (wanted : List String)
    → is_user m ≡ true
    → Covers (answer_ids bs) wanted
    → Covers (answers_after (cleaned m bs rest)) wanted
answers_after-cleaned m [] rest wanted u h = Covers-of_nil _ wanted h
answers_after-cleaned m (b ∷ bs) rest wanted u h = rw u h

answers_after-strip_within :
    (existing : List String) (ms : List Message) (wanted : List String)
    → Covers existing wanted
    → Covers (answers_after ms) wanted
    → Covers (answers_after (strip_within existing ms)) wanted
unfolding strip_within
answers_after-strip_within existing [] wanted e h = h
answers_after-strip_within existing (m ∷ ms) wanted e h = elim (Bool-cases (is_user m)) [
  | inl u ↦ rw u (
      answers_after-cleaned m (keep_blocks existing m.content) (strip_within existing ms) wanted u
        (keep_blocks-answers existing m.content wanted e (rw u at h)))
  | inr a ↦ rw a (Covers-of_nil _ wanted (rw a at h))
]

no_calls : (m : Message) → is_user m ≡ true → calls m ≡ []
no_calls m u = ground arith

Covers-split :
    (known xs ys : List String) → Covers known (xs ++ ys) → Covers known xs × Covers known ys
Covers-split known [] ys h = (tt, h)
Covers-split known (x ∷ xs) ys (h, hs) =
    let (left, right) = Covers-split known xs ys hs in ((h, left), right)

Answered-cleaned :
    (m : Message) (bs : List Block) (rest : List Message)
    → is_user m ≡ true
    → Answered rest
    → Answered (cleaned m bs rest)
Answered-cleaned m [] rest u h = h
Answered-cleaned m (b ∷ bs) rest u h =
    (subst (Covers (answers_after rest)) (sym (no_calls (record m { content = b ∷ bs }) u)) tt, h)

strip_within-Answered :
    (existing : List String) (ms : List Message)
    → Covers existing (collect_tool_use_ids ms)
    → Answered ms
    → Answered (strip_within existing ms)
unfolding strip_within collect_tool_use_ids
strip_within-Answered existing [] e h = tt
strip_within-Answered existing (m ∷ ms) e (c, h) =
    let (mine, others) = Covers-split existing (calls m) (collect_tool_use_ids ms) e in
    let rest = strip_within-Answered existing ms others h in
    elim (Bool-cases (is_user m)) [
      | inl u ↦ rw u (Answered-cleaned m _ _ u rest)
      | inr a ↦ rw a (answers_after-strip_within existing ms (calls m) mine c, rest)
    ]

-- Where each call is answered by the next message, it still is.
pub strip_orphaned_tool_results-Answered :
    (ms : List Message) → Answered ms → Answered (strip_orphaned_tool_results ms)
unfolding strip_orphaned_tool_results
strip_orphaned_tool_results-Answered ms h =
    strip_within-Answered (collect_tool_use_ids ms) ms (Covers-refl (collect_tool_use_ids ms)) h
