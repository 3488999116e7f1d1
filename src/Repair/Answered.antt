-- ===== src/Repair/Answered.antt =====
-- Tool calls and their results after conversation/repair.go's first two passes.
use inber.Prelude.{
  String, ◌≡◌, refl, sym, ap, subst, ◌∙◌, ◌⊎◌, inl, inr, List, [], ◌∷◌, ◌++◌, map, true, false,
  arith, if◌then◌else◌, Bool-cases, Covers, Covers-without, without, without-nil,
}
use inber.Message.{Message, call_ids, answer_ids, answer_ids-append}
use mathlib.Core.Bool.{false≢true}
use inber.Repair.{
  interrupted_result, is_assistant, is_user, calls, followed_by_user, gap, insert_results, fill,
  fill_rest, repair_missing_tool_results, repair_dangling_tool_use,
}

-- The ids that the next message answers, if it is the user's.
abbrev pub answers_after : List Message → List String
answers_after [] = []
answers_after (next ∷ rest) = if is_user next then answer_ids next.content else []

-- What the API asks: the message behind a tool call answers it.
abbrev pub Answered : List Message → Type 0
Answered [] = Unit {0}
Answered (m ∷ rest) = Covers (answers_after rest) (calls m) × Answered rest

-- After the first pass, a message with calls has a user message behind it.
abbrev Followed : List Message → Type 0
Followed [] = Unit {0}
Followed (m ∷ rest) = ((calls m ≡ []) ⊎ (followed_by_user rest ≡ true)) × Followed rest

answer_ids-interrupted : (ids : List String) → answer_ids (map interrupted_result ids) ≡ ids
answer_ids-interrupted [] = refl
answer_ids-interrupted (id ∷ ids) = ap (◌∷◌ id) (answer_ids-interrupted ids)

followed_by_user-insert_results :
    (ms : List Message) → followed_by_user (insert_results ms).0 ≡ followed_by_user ms
unfolding insert_results
followed_by_user-insert_results [] = refl
followed_by_user-insert_results (m ∷ rest) = refl

gap-Followed :
    (m : Message) (ids : List String) (rest done : List Message)
    → calls m ≡ ids
    → followed_by_user done ≡ followed_by_user rest
    → Followed done
    → Followed (m ∷ ((gap ids rest).0 ++ done))
gap-Followed m [] rest done e f h = (inl e, h)
gap-Followed m (id ∷ ids) rest done e f h = elim (Bool-cases (followed_by_user rest)) [
  | inl t ↦ rw (t, gap) (inr (f ∙ t), h)
  | inr n ↦ rw (n, gap) (inr refl, (inl refl, h))
]

insert_results-Followed : (ms : List Message) → Followed (insert_results ms).0
unfolding insert_results
insert_results-Followed [] = tt
insert_results-Followed (m ∷ rest) =
    gap-Followed m (calls m) rest (insert_results rest).0 refl
      (followed_by_user-insert_results rest) (insert_results-Followed rest)

-- The second pass leaves the calls of a message alone: it writes to user messages only.
calls-fill : (m next : Message) → calls (fill m next).0 ≡ calls next
unfolding fill
calls-fill m next = ground arith

answers_after-fill :
    (m next : Message) (rest : List Message)
    → is_assistant m ≡ true
    → is_user next ≡ true
    → answers_after ((fill m next).0 ∷ rest)
      ≡ without (answer_ids next.content) (calls m) ++ answer_ids next.content
unfolding fill
answers_after-fill m next rest a u = ground (
  arith,
  answer_ids-append
      (map interrupted_result (without (answer_ids next.content) (call_ids m.content)))
      next.content,
  answer_ids-interrupted (without (answer_ids next.content) (call_ids m.content)),
)

calls_of_user : (m : Message) → is_assistant m ≡ false → calls m ≡ []
calls_of_user m e = rw e

fill-Covers :
    (m next : Message) (rest : List Message)
    → (calls m ≡ []) ⊎ (is_user next ≡ true)
    → Covers (answers_after ((fill m next).0 ∷ rest)) (calls m)
fill-Covers m next rest (inl e) = rw e tt
fill-Covers m next rest (inr u) = elim (Bool-cases (is_assistant m)) [
  | inl a ↦
      subst (λ ids. Covers ids (calls m)) (sym (answers_after-fill m next rest a u))
        (Covers-without (answer_ids next.content) (calls m))
  | inr a ↦ subst (Covers (answers_after ((fill m next).0 ∷ rest))) (sym (calls_of_user m a)) tt
]

fill_rest-Answered :
    (m : Message) (rest : List Message) → Followed (m ∷ rest) → Answered (m ∷ (fill_rest m rest).0)
unfolding fill_rest
fill_rest-Answered m [] (inl e, h) = (rw e tt, tt)
fill_rest-Answered m [] (inr e, h) = cc
fill_rest-Answered m (next ∷ rest) (a, (b, h)) = (
  fill-Covers m next (fill_rest (fill m next).0 rest).0 a,
  fill_rest-Answered (fill m next).0 rest (rw calls-fill b, h),
)

-- Whatever was interrupted, afterwards each tool call of an assistant message has its result in the
-- user message right behind it.
pub repair_dangling_tool_use-Answered :
    (ms : List Message) → Answered (repair_dangling_tool_use ms).0
unfolding repair_dangling_tool_use repair_missing_tool_results
repair_dangling_tool_use-Answered ms = filled (insert_results ms).0 (insert_results-Followed ms)
  where
    filled : (xs : List Message) → Followed xs → Answered (repair_missing_tool_results xs).0
    filled [] h = tt
    filled (m ∷ rest) h = fill_rest-Answered m rest h

gap_of_Covers :
    (ids : List String) (rest : List Message)
    → Covers (answers_after rest) ids
    → gap ids rest ≡ ([], 0)
gap_of_Covers [] rest h = refl
gap_of_Covers (id ∷ ids) [] h = cc
gap_of_Covers (id ∷ ids) (next ∷ rest) h = elim (Bool-cases (is_user next)) [
  | inl u ↦ rw (u, gap)
  | inr n ↦ absurd (false≢true (rw n at h.0))
]

insert_results_of_Answered : (ms : List Message) → Answered ms → insert_results ms ≡ (ms, 0)
unfolding insert_results
insert_results_of_Answered [] h = refl
insert_results_of_Answered (m ∷ rest) (c, h) =
    rw (gap_of_Covers (calls m) rest c, insert_results_of_Answered rest h)

fill_of_Covers :
    (m next : Message) (rest : List Message)
    → Covers (answers_after (next ∷ rest)) (calls m)
    → fill m next ≡ (next, 0)
unfolding fill
fill_of_Covers m next rest c = elim (Bool-cases (is_assistant m)) [
  | inr a ↦ ground arith
  | inl a ↦ elim (Bool-cases (is_user next)) [
    | inr u ↦ ground arith
    | inl u ↦
        ground (arith, without-nil (answer_ids next.content) (call_ids m.content) (rw (a, u) at c))
  ]
]

fill_rest_of_Answered :
    (m : Message) (rest : List Message) → Answered (m ∷ rest) → fill_rest m rest ≡ (rest, 0)
unfolding fill_rest
fill_rest_of_Answered m [] h = refl
fill_rest_of_Answered m (next ∷ rest) (c, h) =
    rw (fill_of_Covers m next rest c, fill_rest_of_Answered next rest h)

repair_missing_tool_results_of_Answered :
    (ms : List Message) → Answered ms → repair_missing_tool_results ms ≡ (ms, 0)
unfolding repair_missing_tool_results
repair_missing_tool_results_of_Answered [] h = refl
repair_missing_tool_results_of_Answered (m ∷ rest) h = rw (fill_rest_of_Answered m rest h)

-- A transcript that answers all its calls is left exactly as it is, and no repair is reported.
pub repair_dangling_tool_use_of_Answered :
    (ms : List Message) → Answered ms → repair_dangling_tool_use ms ≡ (ms, 0)
unfolding repair_dangling_tool_use
repair_dangling_tool_use_of_Answered ms h =
    rw (insert_results_of_Answered ms h, repair_missing_tool_results_of_Answered ms h)
