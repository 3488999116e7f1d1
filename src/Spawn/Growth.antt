-- ===== src/Spawn/Growth.antt =====
-- What calls of `Spawn` and `ForkAndSpawn` leave with the parent (server/spawn.go).
use inber.Prelude.{
  ℕ, suc, zero, ◌≤◌, ◌<◌, String, ◌≡◌, refl, sym, ap, ◌∙◌, subst, inl, inr, ◌⊎◌, Option, none, some,
  Bool, true, false, str_eq, eq_iff, leb, length, Bool-cases, arith, if◌then◌else◌, List, [], ◌∷◌,
  ◌++◌, append-nil, append_assoc, length-append, OnSome,
}
use inber.Spawn.{
  Limits, Session, Registry, SpawnReply, accepted, declined, Phase, entered, admitted, counted,
  minting, reserved, building, stored, leaving, returned, Task, Move, admit, count, register,
  release, resolve, create, propose, look, Moved, set_pending, store_session, is_live, admit_under,
  children_of, session_key_in_use, judge, with_child, register_child, take_step, step_task, spawn,
}
use inber.Spawn.Held.{live, session_key_unused}
use inber.Spawn.Ending.{task_in}
use inber.Spawn.Alone.{
  Answers, next_move, drive, spawn_alone, respond, fork_and_spawn, drive-HasReturned, continue,
}

abbrev Ready : Limits → List String → List String → Bool → Type 0
Ready limits before now alive =
    (alive ≡ true) × (now ≡ before) × (length before < limits.max_children_per_agent)

abbrev pub Answered : Limits → List String → List String → SpawnReply → Type 0
Answered limits before now (accepted key) =
    (now ≡ before ++ key ∷ []) × (length before < limits.max_children_per_agent)
Answered limits before now (declined why) = now ≡ before

-- The children of the parent, before the call and at the phase it has come to.
abbrev Stage : Limits → String → List String → List String → Bool → Phase → Type 0
Stage limits parent before now alive entered = now ≡ before
Stage limits parent before now alive admitted = (alive ≡ true) × (now ≡ before)
Stage limits parent before now alive counted = Ready limits before now alive
Stage limits parent before now alive (minting left) = Ready limits before now alive
Stage limits parent before now alive (reserved left c) = Ready limits before now alive
Stage limits parent before now alive (building c) =
    Ready limits before now alive × (str_eq c parent ≡ false)
Stage limits parent before now alive (stored c) = Ready limits before now alive
Stage limits parent before now alive (leaving reply c) = Answered limits before now reply
Stage limits parent before now alive (returned reply) = Answered limits before now reply

abbrev Growing : Limits → String → List String → Registry × Task → Type 0
Growing limits parent before (r, t) =
    (t.parent_key ≡ parent)
    × Stage limits parent before (children_of (r.sessions parent)) (live r parent) t.phase

module _ (limits : Limits) (parent : String) (before : List String) where
  abbrev Grows : Moved → Type 0
  Grows = OnSome (Growing limits parent before)

  admit_under-Grows :
      (r : Registry) (depth : ℕ) (found : Option Session)
      → r.sessions parent ≡ found
      → children_of (r.sessions parent) ≡ before
      → Grows (admit_under limits r (task_in parent depth entered) found)
  admit_under-Grows r depth none e h = (refl, h)
  admit_under-Grows r depth (some s) e h =
      elim (Bool-cases (leb limits.max_spawn_depth s.spawn_depth)) [
        | inl g ↦ rw g (refl, h)
        | inr g ↦ rw g (refl, (ap is_live e, h))
      ]

  judge-Grows :
      (r : Registry) (depth left : ℕ) (c : String) (used : Option Bool)
      → (used ≡ some false → live r c ≡ false)
      → Ready limits before (children_of (r.sessions parent)) (live r parent)
      → Grows (judge r (task_in parent depth (reserved left c)) left c used)
  unfolding set_pending
  judge-Grows r depth left c none h (a, e, b) = (refl, e)
  judge-Grows r depth left c (some true) h ready = (refl, ready)
  judge-Grows r depth left c (some false) h ready =
      (refl, (ready, other (Bool-cases (str_eq c parent))))
    where
      other : (str_eq c parent ≡ true) ⊎ (str_eq c parent ≡ false) → str_eq c parent ≡ false
      other (inl same) = cc (ap (live r) ((eq_iff c parent).0 same), ready.0, h refl)
      other (inr e) = e

stored_elsewhere :
    (limits : Limits) (before : List String) (same : Bool) (found : Option Session) (s : Session)
    → same ≡ false
    → Ready limits before (children_of found) (is_live found)
    → Ready limits before
        (children_of (if same then some s else found))
        (is_live (if same then some s else found))
stored_elsewhere limits before true found s h ready = cc h
stored_elsewhere limits before false found s h ready = ready

registered_last :
    (limits : Limits) (before : List String) (key : String) (same : Bool) (found : Option Session)
    → same ≡ true
    → Ready limits before (children_of found) (is_live found)
    → Answered limits before
        (children_of (if same then with_child key found else found))
        (accepted key)
registered_last limits before key true none h ready = cc ready.0
registered_last limits before key true (some s) h (a, e, b) = (ap (λ l. l ++ key ∷ []) e, b)
registered_last limits before key false found h ready = cc h

take_step-Grows :
    (limits : Limits) (move : Move) (phase : Phase) (r : Registry) (parent : String) (depth : ℕ)
    (before : List String)
    → Stage limits parent before (children_of (r.sessions parent)) (live r parent) phase
    → Grows limits parent before (take_step limits move phase r (task_in parent depth phase))
unfolding take_step set_pending store_session register_child
take_step-Grows limits admit entered r parent depth before h =
    admit_under-Grows limits parent before r depth (r.sessions parent) refl h
take_step-Grows limits count admitted r parent depth before (a, e) =
    elim (Bool-cases
      (leb limits.max_children_per_agent (length (children_of (r.sessions parent))))) [
        | inl g ↦ rw g (refl, e)
        | inr g ↦ rw g (refl, (a, e, room g (ap length e)))
      ]
  where
    room : {m n k : ℕ} → leb m n ≡ false → n ≡ k → k < m
    room g e = ground arith
take_step-Grows limits (resolve true) counted r parent depth before h = (refl, h)
take_step-Grows limits (resolve false) counted r parent depth before (a, e, b) = (refl, e)
take_step-Grows limits (propose c) (minting zero) r parent depth before (a, e, b) = (refl, e)
take_step-Grows limits (propose c) (minting (suc left)) r parent depth before h =
    elim (Bool-cases (r.pending_session_keys c)) [ inl g ↦ rw g (refl, h) | inr g ↦ rw g (refl, h) ]
take_step-Grows limits (look recorded) (reserved left c) r parent depth before h =
    judge-Grows limits parent before r depth left c (session_key_in_use r c recorded)
      (session_key_unused r c recorded) h
take_step-Grows limits (create true) (building c) r parent depth before (h, other) =
    (refl, stored_elsewhere limits before (str_eq c parent) (r.sessions parent) _ other h)
take_step-Grows limits (create false) (building c) r parent depth before ((a, e, b), other) =
    (refl, e)
take_step-Grows limits register (stored c) r parent depth before h = (
  refl,
  registered_last limits before c (str_eq parent parent) (r.sessions parent)
      ((eq_iff parent parent).1 refl) h,
)
take_step-Grows limits release (leaving reply c) r parent depth before h = (refl, h)
take_step-Grows limits move phase r parent depth before h = tt

-- Where no call can come in between, each phase keeps the account of the children.
drive-Growing :
    (limits : Limits) (a : Answers) (fuel : ℕ) (r : Registry) (parent : String) (t : Task)
    (before : List String)
    → Growing limits parent before (r, t)
    → Growing limits parent before (drive limits a fuel r t)
unfolding drive
drive-Growing limits a zero r parent t before h = h
drive-Growing limits a (suc fuel) r parent t before (p, h) =
    further (λ r' t' g. drive-Growing limits a fuel r' parent t' before g)
      (step_task limits (next_move a t.phase) r t)
      (subst
        (λ k.
          Grows limits parent before
            (step_task limits (next_move a t.phase) r (task_in k t.depth t.phase)))
        (sym p) (take_step-Grows limits (next_move a t.phase) t.phase r parent t.depth before h))
  where
    further :
        ((r' : Registry) (t' : Task)
          → Growing limits parent before (r', t')
          → Growing limits parent before (drive limits a fuel r' t'))
        → (found : Moved) → Grows limits parent before found
        → Growing limits parent before (continue (drive limits a fuel) (r, t) found)
    further rest none g = (p, h)
    further rest (some (r', t')) g = rest r' t' g

-- A call that no other comes in between returns, and leaves the parent's children as they were or, if it
-- was accepted, with the child behind them, where there was room for one.
spawn_alone-Answered :
    (limits : Limits) (a : Answers) (parent : String) (r : Registry)
    → let done = spawn_alone limits a parent r in
      (reply : SpawnReply) × (done.1.phase ≡ returned reply)
      × Answered limits
          (children_of (r.sessions parent))
          (children_of (done.0.sessions parent))
          reply
spawn_alone-Answered limits a parent r =
    let (reply, e) = drive-HasReturned limits a 206 r parent 0 entered (omega arith) in
    let grown = drive-Growing limits a 206 r parent (spawn parent) _ (refl, refl) in
    (reply, e, subst (Stage limits parent (children_of (r.sessions parent)) _ _) e grown.1)

respond-Answered :
    (limits : Limits) (before now : List String) (reply : SpawnReply) (phase : Phase)
    (rest : List String)
    → phase ≡ returned reply
    → Answered limits before now reply
    → length before ≤ limits.max_children_per_agent
    → (now ++ rest ≡ before ++ respond phase rest) × (length now ≤ limits.max_children_per_agent)
respond-Answered limits before now (accepted key) phase rest e (h, room) b = (
  ap (λ l. l ++ rest) h
      ∙ append_assoc before (key ∷ []) rest
      ∙ ap (λ p. before ++ respond p rest) (sym e),
  omega (arith, ap length h, length-append before (key ∷ [])),
)
respond-Answered limits before now (declined why) phase rest e h b =
    (ap (λ l. l ++ rest) h ∙ ap (λ p. before ++ respond p rest) (sym e), omega (arith, ap length h))

-- `ForkAndSpawn`, with no other call in between: the children it leaves with the parent are those there
-- were and then the ones it answers with, in their order, and no more than are allowed.
pub fork_and_spawn-Fills :
    (limits : Limits) (parent : String) (tasks : List Answers) (r : Registry)
    → length (children_of (r.sessions parent)) ≤ limits.max_children_per_agent
    → let (responses, after) = fork_and_spawn limits parent tasks r in
      (children_of (after.sessions parent) ≡ children_of (r.sessions parent) ++ responses)
      × (length (children_of (after.sessions parent)) ≤ limits.max_children_per_agent)
unfolding fork_and_spawn
fork_and_spawn-Fills limits parent [] r h = (sym (append-nil _), h)
fork_and_spawn-Fills limits parent (a ∷ tasks) r h =
    let done = spawn_alone limits a parent r in
    let (reply, e, answered) = spawn_alone-Answered limits a parent r in
    let rest = (fork_and_spawn limits parent tasks done.0).0 in
    let filled = respond-Answered limits _ _ reply done.1.phase rest e answered h in
    let later = fork_and_spawn-Fills limits parent tasks done.0 filled.1 in
    (later.0 ∙ filled.0, later.1)
