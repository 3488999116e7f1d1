-- ===== src/Queue/Progress.antt =====
-- The steps that are left to the tasks (server/queue.go).
use inber.Prelude.{
  ℕ, suc, ◌+◌, ◌≤◌, String, ◌≡◌, refl, ap, ◌⊎◌, inl, inr, List, [], ◌∷◌, ◌++◌, some, Bool, true,
  false, ◌&&◌, str_eq, ltb, Bool-cases, arith, weight,
}
use inber.Prelude.Int.{ℤ}
use inber.Queue.{
  Queue, Phase, waiting_session, waiting_lane, running, leaving, returned, Task, get_lane, Move,
  lock, acquire, cancel, release, unlock, take_step, step_task, is_running, holds_lock, holders,
  running_in, Reachable, set_locked, set_lane,
}
use inber.Queue.Exclusion.{Sound, Reachable-Sound}

-- A task of the list of which `P` holds.
abbrev pub Has : (Task → Type 0) → List Task → Type 0
Has P tasks =
    (before : List Task) × (t : Task) × (after : List Task) × (tasks ≡ before ++ t ∷ after) × P t

Has-later : (P : Task → Type 0) (t : Task) (tasks : List Task) → Has P tasks → Has P (t ∷ tasks)
Has-later P t tasks (before, u, after, e, p) = (t ∷ before, u, after, ap (λ ts. t ∷ ts) e, p)

abbrev pub HoldsLock : Task → Type 0
HoldsLock t = holds_lock t.phase ≡ true

abbrev pub IsRunning : Task → Type 0
IsRunning t = is_running t.phase ≡ true

none_in_zero : (P : Task → Type 0) → 1 ≤ 0 → Has P []
none_in_zero P h = elim (no h) [ ]
  where
    no : 1 ≤ 0 → ⊥
    no h = omega arith

counted :
    (P : Task → Type 0) (t : Task) (tasks : List Task) (same is : Bool) (n : ℕ)
    → (is ≡ true → P t)
    → (1 ≤ n → Has P tasks)
    → 1 ≤ weight (same && is) + n
    → Has P (t ∷ tasks)
counted P t tasks true true n here later h = ([], t, tasks, refl, here refl)
counted P t tasks true false n here later h = Has-later P t tasks (later (omega arith))
counted P t tasks false is n here later h = Has-later P t tasks (later (omega arith))

holders-Has : (key : String) (tasks : List Task) → 1 ≤ holders key tasks → Has HoldsLock tasks
unfolding holders
holders-Has key [] h = none_in_zero HoldsLock h
holders-Has key (t ∷ tasks) h =
    counted HoldsLock t tasks (str_eq t.session key) (holds_lock t.phase) (holders key tasks)
      (λ e. e) (holders-Has key tasks) h

running_in-Has :
    (name : String) (tasks : List Task) → 1 ≤ running_in name tasks → Has IsRunning tasks
unfolding running_in
running_in-Has name [] h = none_in_zero IsRunning h
running_in-Has name (t ∷ tasks) h =
    counted IsRunning t tasks (str_eq t.lane name) (is_running t.phase) (running_in name tasks)
      (λ e. e) (running_in-Has name tasks) h

abbrev pub is_cancel : Move → Bool
is_cancel lock = false
is_cancel acquire = false
is_cancel cancel = true
is_cancel release = false
is_cancel unlock = false

-- The task can take a step other than giving up.
abbrev pub CanStep : Queue → Task → Type 0
CanStep q t =
    (move : Move) × (out : Queue × Task) × (step_task move q t ≡ some out)
    × (is_cancel move ≡ false)

runner-CanStep :
    (q : Queue) (phase : Phase) (lane session : String)
    → is_running phase ≡ true
    → CanStep q (record { lane = lane; session = session; phase = phase })
unfolding take_step
runner-CanStep q waiting_session lane session e = cc
runner-CanStep q waiting_lane lane session e = cc
runner-CanStep q running lane session e = (release, _, refl, refl)
runner-CanStep q (leaving worked) lane session e = cc
runner-CanStep q (returned worked) lane session e = cc

-- Where a lane is full, a task runs in it.
holder-CanStep :
    (q : Queue) (tasks : List Task) (phase : Phase) (lane session : String)
    → running_in lane tasks ≡ (get_lane q lane).used
    → 1 ≤ (get_lane q lane).concurrency
    → holds_lock phase ≡ true
    → CanStep q (record { lane = lane; session = session; phase = phase }) ⊎ Has IsRunning tasks
unfolding take_step
holder-CanStep q tasks waiting_session lane session r c e = cc
holder-CanStep q tasks waiting_lane lane session r c e =
    elim (Bool-cases (ltb (get_lane q lane).used (get_lane q lane).concurrency)) [
      | inl room ↦ inl (
        acquire,
        (
          set_lane lane (record (get_lane q lane) { used = suc (get_lane q lane).used }) q,
          record { lane = lane; session = session; phase = running },
        ),
        rw room refl,
        refl,
      )
      | inr full ↦ inr (running_in-Has lane tasks (ground arith))
    ]
holder-CanStep q tasks running lane session r c e = inl (release, _, refl, refl)
holder-CanStep q tasks (leaving worked) lane session r c e = inl (unlock, _, refl, refl)
holder-CanStep q tasks (returned worked) lane session r c e = cc

-- The call has come back.
abbrev pub has_returned : Phase → Bool
has_returned waiting_session = false
has_returned waiting_lane = false
has_returned running = false
has_returned (leaving worked) = false
has_returned (returned worked) = true

waiter-CanStep :
    (q : Queue) (tasks : List Task) (phase : Phase) (lane session : String)
    → running_in lane tasks ≡ (get_lane q lane).used
    → 1 ≤ (get_lane q lane).concurrency
    → holders session tasks ≡ weight (q.locked session)
    → has_returned phase ≡ false
    → CanStep q (record { lane = lane; session = session; phase = phase })
      ⊎ Has HoldsLock tasks
      ⊎ Has IsRunning tasks
unfolding take_step
waiter-CanStep q tasks waiting_session lane session r c l e = elim (Bool-cases (q.locked session)) [
  | inr free ↦ inl (
    lock,
    (set_locked session true q, record { lane = lane; session = session; phase = waiting_lane }),
    rw free refl,
    refl,
  )
  | inl busy ↦ inr (inl (holders-Has session tasks (ground arith)))
]
waiter-CanStep q tasks waiting_lane lane session r c l e =
    elim (holder-CanStep q tasks waiting_lane lane session r c refl) [
      | inl can ↦ inl can
      | inr runs ↦ inr (inr runs)
    ]
waiter-CanStep q tasks running lane session r c l e = inl (release, _, refl, refl)
waiter-CanStep q tasks (leaving worked) lane session r c l e = inl (unlock, _, refl, refl)
waiter-CanStep q tasks (returned worked) lane session r c l e = cc

runners-CanStep : (q : Queue) (tasks : List Task) → Has IsRunning tasks → Has (CanStep q) tasks
runners-CanStep q tasks (before, t, after, e, runs) =
    (before, t, after, e, runner-CanStep q t.phase t.lane t.session runs)

-- While a call has not come back, some call can take a step other than giving up: a free mutex or slot can
-- be had, work can end, or what is held can be let go.
pub Reachable_progress :
    (lanes : List (String × ℤ)) (q : Queue) (tasks : List Task)
    → Reachable lanes (q, tasks)
    → Has (λ t. has_returned t.phase ≡ false) tasks
    → Has (CanStep q) tasks
Reachable_progress lanes q tasks r (before, t, after, e, waits) =
    elim (waiter-CanStep q tasks t.phase t.lane t.session (sound.1 t.lane).0 (sound.1 t.lane).1.0
      (sound.0 t.session) waits) [
        | inl can ↦ (before, t, after, e, can)
        | inr (inr runs) ↦ runners-CanStep q tasks runs
        | inr (inl (ahead, u, behind, d, holds)) ↦
            elim (holder-CanStep q tasks u.phase u.lane u.session (sound.1 u.lane).0
              (sound.1 u.lane).1.0 holds) [
                | inl can ↦ (ahead, u, behind, d, can)
                | inr runs ↦ runners-CanStep q tasks runs
              ]
      ]
  where
    sound : Sound lanes (q, tasks)
    sound = Reachable-Sound r
