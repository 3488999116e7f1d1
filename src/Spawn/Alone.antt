-- ===== src/Spawn/Alone.antt =====
-- Calls of `Spawn` one after the other, and `ForkAndSpawn` (server/spawn.go).
use inber.Prelude.{
  ℕ, suc, zero, ◌≤◌, String, ◌≡◌, refl, sym, ap, ◌∙◌, subst, inl, inr, ◌⊎◌, Option, none, some,
  Bool, true, false, leb, length, arith, List, [], ◌∷◌, on_some,
}
use inber.Spawn.{
  Limits, Registry, SpawnReply, accepted, Phase, entered, admitted, counted, minting, reserved,
  building, stored, leaving, returned, Task, Move, admit, count, register, release, resolve, create,
  propose, look, Moved, children_of, session_key_in_use, take_step, step_task, spawn,
}
use inber.Spawn.Ending.{
  steps_left, Fewer, IsTaken, HasReturned, take_step-Fewer, either, admit_under-IsTaken,
  judge-IsTaken, task_in,
}

-- What a call is told by the configuration, the clock (for the proposals that are left), the store and the
-- disk, and the making of the child.
pub record Answers : Type 0 where
  pub is_configured : Bool
  pub proposal : ℕ → String
  pub recorded : String → Option Bool
  pub is_created : Bool

abbrev pub next_move : Answers → Phase → Move
next_move a entered = admit
next_move a admitted = count
next_move a counted = resolve a.is_configured
next_move a (minting left) = propose (a.proposal left)
next_move a (reserved left c) = look (a.recorded c)
next_move a (building c) = create a.is_created
next_move a (stored c) = register
next_move a (leaving reply c) = release
next_move a (returned reply) = release

abbrev pub continue :
    (Registry → Task → Registry × Task) → Registry × Task → Moved → Registry × Task
continue further here none = here
continue further here (some (r, t)) = further r t

-- A call from its first step on, with no other call in between.
unfoldable pub drive : Limits → Answers → ℕ → Registry → Task → Registry × Task
drive limits a zero r t = (r, t)
drive limits a (suc fuel) r t =
    continue (drive limits a fuel) (r, t) (step_task limits (next_move a t.phase) r t)

abbrev pub spawn_alone : Limits → Answers → String → Registry → Registry × Task
spawn_alone limits a parent r = drive limits a 206 r (spawn parent)

-- A spawn that fails is logged and passed over.
abbrev pub respond : Phase → List String → List String
respond (returned (accepted key)) responses = key ∷ responses
respond phase responses = responses

unfoldable pub fork_and_spawn : Limits → String → List Answers → Registry → List String × Registry
fork_and_spawn limits parent [] r = ([], r)
fork_and_spawn limits parent (a ∷ tasks) r =
    let done = spawn_alone limits a parent r in
    let rest = fork_and_spawn limits parent tasks done.0 in (respond done.1.phase rest.0, rest.1)

next_move-IsTaken :
    (limits : Limits) (a : Answers) (r : Registry) (parent : String) (depth : ℕ) (phase : Phase)
    → HasReturned phase
      ⊎ IsTaken (step_task limits (next_move a phase) r (task_in parent depth phase))
unfolding take_step
next_move-IsTaken limits a r parent depth entered =
    inr (admit_under-IsTaken limits r (task_in parent depth entered) (r.sessions parent))
next_move-IsTaken limits a r parent depth admitted =
    inr (either (leb limits.max_children_per_agent (length (children_of (r.sessions parent)))) _ _)
next_move-IsTaken limits a r parent depth counted = inr (resolved a.is_configured)
  where
    resolved :
        (b : Bool) → IsTaken (take_step limits (resolve b) counted r (task_in parent depth counted))
    resolved true = (_, refl)
    resolved false = (_, refl)
next_move-IsTaken limits a r parent depth (minting zero) = inr (_, refl)
next_move-IsTaken limits a r parent depth (minting (suc left)) =
    inr (either (r.pending_session_keys (a.proposal (suc left))) _ _)
next_move-IsTaken limits a r parent depth (reserved left c) = inr (
    judge-IsTaken r (task_in parent depth (reserved left c)) left c
      (session_key_in_use r c (a.recorded c)))
next_move-IsTaken limits a r parent depth (building c) = inr (created a.is_created)
  where
    created :
        (b : Bool)
        → IsTaken (take_step limits (create b) (building c) r (task_in parent depth (building c)))
    created true = (_, refl)
    created false = (_, refl)
next_move-IsTaken limits a r parent depth (stored c) = inr (_, refl)
next_move-IsTaken limits a r parent depth (leaving reply c) = inr (_, refl)
next_move-IsTaken limits a r parent depth (returned reply) = inl (reply, refl)

at_end : (phase : Phase) → steps_left phase ≤ 0 → HasReturned phase
at_end (minting left) h = ground arith
at_end (reserved left c) h = ground arith
at_end (returned reply) h = (reply, refl)
at_end phase h = ground arith

drive_step :
    (limits : Limits) (a : Answers) (fuel : ℕ) (r r' : Registry) (t t' : Task)
    → step_task limits (next_move a t.phase) r t ≡ some (r', t')
    → drive limits a (suc fuel) r t ≡ drive limits a fuel r' t'
unfolding drive
drive_step limits a fuel r r' t t' e = ap (continue (drive limits a fuel) (r, t)) e

drive_returned :
    (limits : Limits) (a : Answers) (fuel : ℕ) (r : Registry) (parent : String) (depth : ℕ)
    (reply : SpawnReply)
    → drive limits a fuel r (task_in parent depth (returned reply))
      ≡ (r, task_in parent depth (returned reply))
unfolding drive take_step
drive_returned limits a zero r parent depth reply = refl
drive_returned limits a (suc fuel) r parent depth reply = refl

-- With as much fuel as there are steps left, the call comes back.
pub drive-HasReturned :
    (limits : Limits) (a : Answers) (fuel : ℕ) (r : Registry) (parent : String) (depth : ℕ)
    (phase : Phase)
    → steps_left phase ≤ fuel
    → HasReturned (drive limits a fuel r (task_in parent depth phase)).1.phase
unfolding drive
drive-HasReturned limits a zero r parent depth phase h = at_end phase h
drive-HasReturned limits a (suc fuel) r parent depth phase h =
    elim (next_move-IsTaken limits a r parent depth phase) [
      | inl (reply, e) ↦ (
        reply,
        ap (λ p. (drive limits a (suc fuel) r (task_in parent depth p)).1.phase) e
            ∙ ap (λ p. p.1.phase) (drive_returned limits a (suc fuel) r parent depth reply),
      )
      | inr ((r', t'), e) ↦
          let less =
            on_some (Fewer phase) _ _
              (take_step-Fewer limits (next_move a phase) phase r parent depth) e in
          subst (λ p. HasReturned p.1.phase)
            (sym (drive_step limits a fuel r r' (task_in parent depth phase) t' e))
            (drive-HasReturned limits a fuel r' t'.parent_key t'.depth t'.phase (omega arith))
    ]
