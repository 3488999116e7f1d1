-- ===== src/Repair/Alternation.antt =====
-- The order of roles in conversation/repair.go's `RepairAlternation`.
use inber.Prelude.{
  String, ◌≡◌, ◌≢◌, refl, ◌∙◌, ◌⊎◌, inl, inr, List, [], ◌∷◌, ◌++◌, arith, if◌then◌else◌, Covers,
  Covers-append_left,
}
use inber.Message.{Role, user, assistant, Message, answer_ids, answer_ids-append}
use inber.Repair.{
  is_assistant, calls, join, merge, pad, keep, continued, alternate, repair_alternation,
}
use inber.Repair.Answered.{Answered, answers_after}

-- No two neighbours have the same role.
abbrev pub Alternates : List Message → Type 0
Alternates [] = Unit {0}
Alternates (m ∷ rest) = (elim rest [ [] ↦ Unit {0} | n ∷ ns ↦ m.role ≢ n.role ]) × Alternates rest

-- The runs of the loop: `p` is held back, the messages are to come, the last list is the result.
pub data Run : Message → List Message → List Message → Type 0 where
  last : (p : Message) → Run p [] (p ∷ [])
  merged :
      {p c : Message} {rest out : List Message}
      → p.role ≡ user
      → c.role ≡ user
      → Run (record p { content = p.content ++ c.content }) rest out
      → Run p (c ∷ rest) out
  padded :
      {p c : Message} {rest out : List Message}
      → p.role ≡ assistant
      → c.role ≡ assistant
      → Run c rest out
      → Run p (c ∷ rest) (p ∷ continued ∷ out)
  kept :
      {p c : Message} {rest out : List Message}
      → p.role ≢ c.role
      → Run c rest out
      → Run p (c ∷ rest) (p ∷ out)

pub join_cases :
    (r s : Role)
    → ((join r s ≡ merge) × (r ≡ user) × (s ≡ user))
      ⊎ (((join r s ≡ pad) × (r ≡ assistant) × (s ≡ assistant)) ⊎ ((join r s ≡ keep) × (r ≢ s)))
join_cases user user = inl (refl, refl, refl)
join_cases user assistant = inr (inr (refl, λ e. cc))
join_cases assistant user = inr (inr (refl, λ e. cc))
join_cases assistant assistant = inr (inl (refl, refl, refl))

pub alternate-Run : (p : Message) (rest : List Message) → Run p rest (alternate p rest)
unfolding alternate
alternate-Run p [] = last p
alternate-Run p (c ∷ rest) = elim (join_cases p.role c.role) [
  | inl (e, u, v) ↦ rw (e, alternate) (merged u v (alternate-Run _ rest))
  | inr (inl (e, u, v)) ↦ rw (e, alternate) (padded u v (alternate-Run c rest))
  | inr (inr (e, d)) ↦ rw (e, alternate) (kept d (alternate-Run c rest))
]

abbrev HeadedBy : Role → List Message → Type 0
HeadedBy r [] = ⊥
HeadedBy r (m ∷ rest) = m.role ≡ r

Run-HeadedBy : {p : Message} {rest out : List Message} → Run p rest out → HeadedBy p.role out
Run-HeadedBy (last p) = refl
Run-HeadedBy (merged u v r) = Run-HeadedBy r
Run-HeadedBy (padded u v r) = refl
Run-HeadedBy (kept d r) = refl

Alternates-cons :
    (m : Message) (r : Role) (ms : List Message)
    → HeadedBy r ms
    → m.role ≢ r
    → Alternates ms
    → Alternates (m ∷ ms)
Alternates-cons m r [] h d a = absurd h
Alternates-cons m r (n ∷ ms) h d a = (λ e. d (e ∙ h), a)

Run-Alternates : {p : Message} {rest out : List Message} → Run p rest out → Alternates out
Run-Alternates (last p) = (tt, tt)
Run-Alternates (merged u v r) = Run-Alternates r
Run-Alternates (padded {p} {c} u v r) =
    ((λ e. cc), Alternates-cons continued c.role _ (Run-HeadedBy r) (λ e. cc) (Run-Alternates r))
Run-Alternates (kept {p} {c} d r) = Alternates-cons p c.role _ (Run-HeadedBy r) d (Run-Alternates r)

-- After the repair no two neighbouring messages have the same role.
pub repair_alternation-Alternates : (ms : List Message) → Alternates (repair_alternation ms)
unfolding repair_alternation
repair_alternation-Alternates [] = tt
repair_alternation-Alternates (m ∷ rest) = Run-Alternates (alternate-Run m rest)

-- The assistant's messages, in order.
abbrev pub assistant_messages : List Message → List Message
assistant_messages [] = []
assistant_messages (m ∷ rest) =
    if is_assistant m then m ∷ assistant_messages rest else assistant_messages rest

Run-assistant_messages :
    {p : Message} {rest out : List Message}
    → Run p rest out
    → assistant_messages out ≡ assistant_messages (p ∷ rest)
Run-assistant_messages (last p) = refl
Run-assistant_messages (merged u v r) = ground (arith, Run-assistant_messages r)
Run-assistant_messages (padded u v r) = ground (arith, Run-assistant_messages r)
Run-assistant_messages (kept d r) = ground (arith, Run-assistant_messages r)

-- The repair changes no message of the assistant, and drops or moves none.
pub assistant_messages-repair_alternation :
    (ms : List Message) → assistant_messages (repair_alternation ms) ≡ assistant_messages ms
unfolding repair_alternation
assistant_messages-repair_alternation [] = refl
assistant_messages-repair_alternation (m ∷ rest) = Run-assistant_messages (alternate-Run m rest)

-- The head of the result answers what the held message answers, and more.
Run-answers_after :
    {p : Message} {rest out : List Message} (wanted : List String)
    → Run p rest out
    → Covers (answers_after (p ∷ rest)) wanted
    → Covers (answers_after out) wanted
Run-answers_after wanted (last p) h = h
Run-answers_after wanted (merged {p} {c} u v r) h = Run-answers_after wanted r (
    rw (u, answer_ids-append p.content c.content)
      (Covers-append_left (answer_ids p.content) (answer_ids c.content) wanted (rw u at h)))
Run-answers_after wanted (padded u v r) h = h
Run-answers_after wanted (kept d r) h = h

Run-Answered :
    {p : Message} {rest out : List Message} → Run p rest out → Answered (p ∷ rest) → Answered out
Run-Answered (last p) h = h
Run-Answered (merged u v r) (_, (_, h)) = Run-Answered r (rw u tt, h)
Run-Answered (padded u v r) (h, a) = (rw v at h, (tt, Run-Answered r a))
Run-Answered (kept {p} d r) (h, a) = (Run-answers_after (calls p) r h, Run-Answered r a)

-- Where each tool call is answered by the next message, it still is.
pub repair_alternation-Answered :
    (ms : List Message) → Answered ms → Answered (repair_alternation ms)
unfolding repair_alternation
repair_alternation-Answered [] h = tt
repair_alternation-Answered (m ∷ rest) h = Run-Answered (alternate-Run m rest) h
