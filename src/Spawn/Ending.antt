-- ===== src/Spawn/Ending.antt =====
-- A call of `Spawn` comes back (server/spawn.go, server/session_forking.go).
use inber.Prelude.{
  ℕ, suc, zero, ◌+◌, ◌*◌, ◌≤◌, ◌<◌, String, ◌≡◌, refl, inl, inr, ◌⊎◌, Option, none, some, Bool,
  true, false, leb, length, Bool-cases, arith, if◌then◌else◌, OnSome, on_some,
}
use inber.Spawn.{
  Limits, Session, Registry, SpawnReply, Phase, entered, admitted, counted, minting, reserved,
  building, stored, leaving, returned, Task, Move, admit, count, register, release, resolve, create,
  propose, look, Moved, admit_under, children_of, session_key_in_use, judge, take_step, step_task,
  spawn,
}

-- What one call does, in `n` steps, with anything done to the registry in between.
pub data Course (limits : Limits) : Task → ℕ → Task → Type 0 where
  still : (t : Task) → Course limits t 0 t
  step :
      (r r' : Registry) (move : Move) {t t' t'' : Task} {n : ℕ}
      → step_task limits move r t ≡ some (r', t')
      → Course limits t' n t''
      → Course limits t (suc n) t''

-- The steps that a call can still take, for a key two for each proposal.
abbrev pub steps_left : Phase → ℕ
steps_left entered = 206
steps_left admitted = 205
steps_left counted = 204
steps_left (minting left) = 2 * left + 3
steps_left (reserved left c) = 2 * left + 4
steps_left (building c) = 3
steps_left (stored c) = 2
steps_left (leaving reply c) = 1
steps_left (returned reply) = 0

abbrev pub Fewer : Phase → Registry × Task → Type 0
Fewer phase (r, t) = steps_left t.phase < steps_left phase

admit_under-Fewer :
    (limits : Limits) (r : Registry) (parent : String) (depth : ℕ) (found : Option Session)
    → OnSome (Fewer entered) (
        admit_under limits r (record { parent_key = parent; depth = depth; phase = entered }) found)
admit_under-Fewer limits r parent depth none = omega arith
admit_under-Fewer limits r parent depth (some s) =
    elim (Bool-cases (leb limits.max_spawn_depth s.spawn_depth)) [
      | inl e ↦ rw e (omega arith)
      | inr e ↦ rw e (omega arith)
    ]

judge-Fewer :
    (r : Registry) (parent : String) (depth left : ℕ) (c : String) (used : Option Bool)
    → OnSome (Fewer (reserved left c)) (
        judge r
          (record { parent_key = parent; depth = depth; phase = reserved left c })
          left
          c
          used)
judge-Fewer r parent depth left c none = omega arith
judge-Fewer r parent depth left c (some true) = omega arith
judge-Fewer r parent depth left c (some false) = omega arith

pub take_step-Fewer :
    (limits : Limits) (move : Move) (phase : Phase) (r : Registry) (parent : String) (depth : ℕ)
    → OnSome (Fewer phase) (
        take_step limits move phase r
          (record { parent_key = parent; depth = depth; phase = phase }))
unfolding take_step
take_step-Fewer limits admit entered r parent depth =
    admit_under-Fewer limits r parent depth (r.sessions parent)
take_step-Fewer limits count admitted r parent depth =
    elim (Bool-cases
      (leb limits.max_children_per_agent (length (children_of (r.sessions parent))))) [
        | inl e ↦ rw e (omega arith)
        | inr e ↦ rw e (omega arith)
      ]
take_step-Fewer limits (resolve true) counted r parent depth = omega arith
take_step-Fewer limits (resolve false) counted r parent depth = omega arith
take_step-Fewer limits (propose c) (minting zero) r parent depth = omega arith
take_step-Fewer limits (propose c) (minting (suc left)) r parent depth =
    elim (Bool-cases (r.pending_session_keys c)) [
      | inl e ↦ rw e (omega arith)
      | inr e ↦ rw e (omega arith)
    ]
take_step-Fewer limits (look recorded) (reserved left c) r parent depth =
    judge-Fewer r parent depth left c (session_key_in_use r c recorded)
take_step-Fewer limits (create true) (building c) r parent depth = omega arith
take_step-Fewer limits (create false) (building c) r parent depth = omega arith
take_step-Fewer limits register (stored c) r parent depth = omega arith
take_step-Fewer limits release (leaving reply c) r parent depth = omega arith
take_step-Fewer limits move phase r parent depth = tt

course_bound :
    {limits : Limits} {t t' : Task} {n : ℕ}
    → Course limits t n t'
    → n + steps_left t'.phase ≤ steps_left t.phase
course_bound (still t) = omega arith
course_bound {limits = limits} {t = t} (step r r' move e rest) =
    let less =
      on_some (Fewer t.phase) _ _ (take_step-Fewer limits move t.phase r t.parent_key t.depth) e in
    omega (arith, less, course_bound rest)

abbrev pub HasReturned : Phase → Type 0
HasReturned phase = (reply : SpawnReply) × (phase ≡ returned reply)

abbrev pub Moves : Limits → Registry → Task → Type 0
Moves limits r t =
    (move : Move) × (next : Registry × Task) × (step_task limits move r t ≡ some next)

abbrev pub IsTaken : Moved → Type 0
IsTaken found = (next : Registry × Task) × (found ≡ some next)

pub either : (b : Bool) (x y : Registry × Task) → IsTaken (if b then some x else some y)
either true x y = (x, refl)
either false x y = (y, refl)

pub admit_under-IsTaken :
    (limits : Limits) (r : Registry) (t : Task) (found : Option Session)
    → IsTaken (admit_under limits r t found)
admit_under-IsTaken limits r t none = (_, refl)
admit_under-IsTaken limits r t (some s) = either (leb limits.max_spawn_depth s.spawn_depth) _ _

pub judge-IsTaken :
    (r : Registry) (t : Task) (left : ℕ) (c : String) (used : Option Bool)
    → IsTaken (judge r t left c used)
judge-IsTaken r t left c none = (_, refl)
judge-IsTaken r t left c (some true) = (_, refl)
judge-IsTaken r t left c (some false) = (_, refl)

abbrev pub task_in : String → ℕ → Phase → Task
task_in parent depth phase = record { parent_key = parent; depth = depth; phase = phase }

moved_on :
    (limits : Limits) (r : Registry) (t : Task) (move : Move)
    → IsTaken (step_task limits move r t)
    → Moves limits r t
moved_on limits r t move (next, e) = (move, next, e)

due :
    (limits : Limits) (r : Registry) (parent : String) (depth : ℕ) (phase : Phase)
    → HasReturned phase ⊎ Moves limits r (task_in parent depth phase)
unfolding take_step
due limits r parent depth entered = inr (
    moved_on limits r (task_in parent depth entered) admit
      (admit_under-IsTaken limits r (task_in parent depth entered) (r.sessions parent)))
due limits r parent depth admitted = inr (
    moved_on limits r _ count
      (either (leb limits.max_children_per_agent (length (children_of (r.sessions parent)))) _ _))
due limits r parent depth counted = inr (resolve true, _, refl)
due limits r parent depth (minting zero) = inr (propose parent, _, refl)
due limits r parent depth (minting (suc left)) =
    inr (moved_on limits r _ (propose parent) (either (r.pending_session_keys parent) _ _))
due limits r parent depth (reserved left c) = inr (
    moved_on limits r (task_in parent depth (reserved left c)) (look (some false)) (
      judge-IsTaken r (task_in parent depth (reserved left c)) left c
        (session_key_in_use r c (some false))))
due limits r parent depth (building c) = inr (create true, _, refl)
due limits r parent depth (stored c) = inr (register, _, refl)
due limits r parent depth (leaving reply c) = inr (release, _, refl)
due limits r parent depth (returned reply) = inl (reply, refl)

-- Whatever the other calls do to the registry in between, a call takes at most 206 steps, two of them for
-- each key that it proposes; and where it has not come back there is a step that it can take.
pub Course-Ends :
    (limits : Limits) (parent : String) (n : ℕ) (t : Task) (now : Registry)
    → Course limits (spawn parent) n t
    → (n ≤ 206) × (HasReturned t.phase ⊎ Moves limits now t)
Course-Ends limits parent n t now course =
    (omega (arith, course_bound course), due limits now t.parent_key t.depth t.phase)
