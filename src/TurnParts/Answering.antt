-- ===== src/TurnParts/Answering.antt =====
-- agent/agent.go, `Run`: the conversation that a turn writes.
use inber.Prelude.{
  String, List, [], ◌∷◌, ◌++◌, map, true, false, ◌≡◌, refl, sym, ap, subst, ◌∙◌, inl, inr,
  Bool-cases, if◌then◌else◌, Covers, Covers-append_left, Covers-refl,
}
use mathlib.Core.Bool.{true≢false}
use inber.Message.{
  Role, user, assistant, Block, text, tool_use, tool_result, thinking, redacted_thinking, other,
  Message, answer_id, call_ids, answer_ids, answer_ids-append,
}
use inber.Repair.{is_user, calls}
use inber.Repair.Answered.{answers_after}
use inber.Execution.{ToolResultBlock}
use inber.TurnParts.{
  on_last, with_blocks, append_to_last, insert_after_results, has_result, with_inserted,
  insert_in_last, ends_with_user, tool_uses, result_block, answering,
}

-- Each message but the last has its tool calls answered by the next.
abbrev pub Settled : List Message → Type 0
Settled [] = Unit {0}
Settled (m ∷ []) = Unit {0}
Settled (m ∷ next ∷ ms) = Covers (answers_after (next ∷ ms)) (calls m) × Settled (next ∷ ms)

-- And the last one is the user's: the model is to answer.
abbrev pub Ready : List Message → Type 0
Ready ms = Settled ms × (ends_with_user ms ≡ true)

calls-user : (m : Message) → is_user m ≡ true → calls m ≡ []
calls-user m u = go m.role u
  where
    go :
        (r : Role)
        → (elim r [ user ↦ true | assistant ↦ false ]) ≡ true
        → (if (elim r [ user ↦ false | assistant ↦ true ]) then call_ids m.content else []) ≡ []
    go user e = refl
    go assistant e = absurd (true≢false (sym e))

-- A rewriting of a user message that keeps what it answers.
abbrev Grows : (Message → Message) → Type 0
Grows f =
    (m : Message)
    → is_user m ≡ true
    → (is_user (f m) ≡ true)
      × ((wanted : List String)
          → Covers (answer_ids m.content) wanted
          → Covers (answer_ids (f m).content) wanted)

answers_after-user :
    (m : Message) (ms : List Message)
    → is_user m ≡ true
    → answers_after (m ∷ ms) ≡ answer_ids m.content
answers_after-user m ms u = rw u refl

on_last-Ready :
    (f : Message → Message) → Grows f → (ms : List Message) → Ready ms → Ready (on_last f ms)
unfolding on_last
on_last-Ready f g [] h = h
on_last-Ready f g (m ∷ []) (s, u) = (tt, (g m u).0)
on_last-Ready f g (m ∷ next ∷ []) ((c, s), u) = (
  (
    subst (λ ids. Covers ids (calls m)) (sym (answers_after-user (f next) [] (g next u).0))
        ((g next u).1 (calls m)
          (subst (λ ids. Covers ids (calls m)) (answers_after-user next [] u) c)),
    tt,
  ),
  (g next u).0,
)
on_last-Ready f g (m ∷ next ∷ third ∷ ms) ((c, s), u) =
    let (s1, u1) = on_last-Ready f g (next ∷ third ∷ ms) (s, u) in ((c, s1), u1)

pub append_to_last-Ready :
    (blocks : List Block) (ms : List Message) → Ready ms → Ready (append_to_last blocks ms)
unfolding append_to_last
append_to_last-Ready blocks ms h =
    on_last-Ready (with_blocks blocks)
      (λ m u. (
        u,
        λ wanted c.
            subst (λ ids. Covers ids wanted) (sym (answer_ids-append m.content blocks))
              (Covers-append_left (answer_ids m.content) (answer_ids blocks) wanted c),
      ))
      ms h

answer_ids-insert_after_results :
    (s : String) (bs : List Block) → answer_ids (insert_after_results (text s) bs) ≡ answer_ids bs
unfolding insert_after_results
answer_ids-insert_after_results s [] = refl
answer_ids-insert_after_results s (b ∷ bs) = elim (Bool-cases (has_result (b ∷ bs))) [
  | inl e ↦ rw e (ap (λ ids. answer_id b ++ ids) (answer_ids-insert_after_results s bs))
  | inr e ↦ rw e refl
]

pub insert_in_last-Ready :
    (s : String) (ms : List Message) → Ready ms → Ready (insert_in_last (text s) ms)
unfolding insert_in_last
insert_in_last-Ready s ms h =
    on_last-Ready (with_inserted (text s))
      (λ m u. (
        u,
        λ wanted c.
            subst (λ ids. Covers ids wanted) (sym (answer_ids-insert_after_results s m.content)) c,
      ))
      ms h

-- A message behind one of the user.
pub Ready-append : (ms : List Message) (x : Message) → Ready ms → Settled (ms ++ x ∷ [])
Ready-append [] x h = tt
Ready-append (m ∷ []) x (s, u) =
    (subst (Covers (answers_after (x ∷ []))) (sym (calls-user m u)) tt, tt)
Ready-append (m ∷ next ∷ ms) x ((c, s), u) = (c, Ready-append (next ∷ ms) x (s, u))

-- A message of the user that answers the last one.
pub Settled-append :
    (ms : List Message) (x y : Message)
    → Settled (ms ++ x ∷ [])
    → Covers (answers_after (y ∷ [])) (calls x)
    → is_user y ≡ true
    → Ready ((ms ++ x ∷ []) ++ y ∷ [])
Settled-append [] x y s c u = ((c, tt), u)
Settled-append (m ∷ []) x y (d, s) c u = ((d, (c, tt)), u)
Settled-append (m ∷ next ∷ ms) x y (d, s) c u =
    let (s1, u1) = Settled-append (next ∷ ms) x y s c u in ((d, s1), u1)

answer_ids-results :
    (rs : List ToolResultBlock) → answer_ids (map result_block rs) ≡ map (λ r. r.id) rs
answer_ids-results [] = refl
answer_ids-results (r ∷ rs) = ap (◌∷◌ r.id) (answer_ids-results rs)

pub tool_uses_ids : (bs : List Block) → map (λ b. b.id) (tool_uses bs) ≡ call_ids bs
tool_uses_ids [] = refl
tool_uses_ids (tool_use u ∷ bs) = ap (◌∷◌ u.id) (tool_uses_ids bs)
tool_uses_ids (text s ∷ bs) = tool_uses_ids bs
tool_uses_ids (tool_result r ∷ bs) = tool_uses_ids bs
tool_uses_ids (thinking s ∷ bs) = tool_uses_ids bs
tool_uses_ids (redacted_thinking s ∷ bs) = tool_uses_ids bs
tool_uses_ids (other s ∷ bs) = tool_uses_ids bs

pub answering_lem :
    (rs : List ToolResultBlock) (more : List String) (wanted : List String)
    → map (λ r. r.id) rs ≡ wanted
    → (is_user (answering rs more) ≡ true) × Covers (answers_after (answering rs more ∷ [])) wanted
unfolding answering
answering_lem rs [] wanted e =
    (refl, subst (λ ids. Covers ids wanted) (sym (answer_ids-results rs ∙ e)) (Covers-refl wanted))
answering_lem rs (first ∷ more) wanted e = (
  refl,
  subst (λ ids. Covers ids wanted) (sym (answer_ids-append (map result_block rs) _))
      (Covers-append_left _ _ wanted
        (subst (λ ids. Covers ids wanted) (sym (answer_ids-results rs ∙ e)) (Covers-refl wanted))),
)
