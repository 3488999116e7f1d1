-- ===== src/Queue/Balance.antt =====
-- What one step of a task changes, counted (server/queue.go).
use inber.Prelude.{
  suc, ◌+◌, ◌-◌, ◌≤◌, String, ◌≡◌, refl, sym, ap, inl, inr, Bool, true, false, ◌&&◌, str_eq, eq_iff,
  ltb, Bool-cases, arith, if◌then◌else◌, subst, OnSome, weight,
}
use inber.Queue.{
  Lane, Queue, Phase, waiting_session, waiting_lane, running, leaving, Task, get_lane, set_lane,
  set_locked, Move, lock, acquire, cancel, release, unlock, take_step, is_running, holds_lock,
}

-- What a task and its step weigh, the lock included, and the same of the slots of a lane.
abbrev pub LockBalance : String → Queue → Task → Queue × Task → Type 0
LockBalance key q t (q', t') =
    weight (str_eq t'.session key && holds_lock t'.phase) + weight (q.locked key)
    ≡ weight (str_eq t.session key && holds_lock t.phase) + weight (q'.locked key)

abbrev pub Held : String → Queue → Task → Type 0
Held key q t = weight (str_eq t.session key && holds_lock t.phase) ≤ weight (q.locked key)

on_lock :
    (same b : Bool)
    → (same ≡ true → b ≡ false)
    → weight (same && true) + weight b ≡ weight (same && false) + weight (if same then true else b)
on_lock true true h = cc (h refl)
on_lock true false h = refl
on_lock false b h = refl

on_unlock :
    (same b : Bool)
    → weight (same && true) ≤ weight b
    → weight (same && false) + weight b ≡ weight (same && true) + weight (if same then false else b)
on_unlock true true h = refl
on_unlock true false h = omega arith
on_unlock false b h = refl

pub take_step-LockBalance :
    (move : Move) (phase : Phase) (key : String) (q : Queue) (lane session : String)
    → Held key q (record { lane = lane; session = session; phase = phase })
    → OnSome
        (LockBalance key q (record { lane = lane; session = session; phase = phase }))
        (take_step move phase q (record { lane = lane; session = session; phase = phase }))
unfolding take_step set_lane set_locked
take_step-LockBalance lock waiting_session key q lane session h =
    elim (Bool-cases (q.locked session)) [
      | inl e ↦ rw e tt
      | inr e ↦ rw e (
          on_lock (str_eq session key) (q.locked key)
            (λ same. subst (λ k. q.locked k ≡ false) ((eq_iff session key).0 same) e))
    ]
take_step-LockBalance acquire waiting_lane key q lane session h =
    elim (Bool-cases (ltb (get_lane q lane).used (get_lane q lane).concurrency)) [
      | inl e ↦ rw e refl
      | inr e ↦ rw e tt
    ]
take_step-LockBalance cancel waiting_lane key q lane session h = refl
take_step-LockBalance release running key q lane session h = refl
take_step-LockBalance unlock (leaving worked) key q lane session h =
    on_unlock (str_eq session key) (q.locked key) h
take_step-LockBalance move phase key q lane session h = tt

get_lane-set_lane :
    (name other : String) (lane : Lane) (q : Queue)
    → get_lane (set_lane name lane q) other ≡ (if str_eq name other then lane else get_lane q other)
unfolding get_lane set_lane
get_lane-set_lane name other lane q = elim (Bool-cases (str_eq name other)) [
  | inl e ↦ rw e refl
  | inr e ↦ rw e refl
]

-- A lane has a slot, and no more are used than there are.
abbrev pub IsLane : Lane → Type 0
IsLane lane = (1 ≤ lane.concurrency) × (lane.used ≤ lane.concurrency)

-- What a step does to a lane, from `lane` to `lane'`, for a task that is in it or not.
abbrev pub SlotBalance : String → Queue → Task → Queue × Task → Type 0
SlotBalance name q t (q', t') =
    (weight (str_eq t'.lane name && is_running t'.phase) + (get_lane q name).used
      ≡ weight (str_eq t.lane name && is_running t.phase) + (get_lane q' name).used)
    × IsLane (get_lane q' name)
    × ((get_lane q' name).concurrency ≡ (get_lane q name).concurrency)

abbrev pub Slotted : String → Queue → Task → Type 0
Slotted name q t =
    (weight (str_eq t.lane name && is_running t.phase) ≤ (get_lane q name).used)
    × IsLane (get_lane q name)

on_acquire :
    (same : Bool) (mine other : Lane)
    → (same ≡ true → other ≡ mine)
    → ltb mine.used mine.concurrency ≡ true
    → IsLane other
    → let after = (if same then record mine { used = suc mine.used } else other) in
      (weight (same && true) + other.used ≡ weight (same && false) + after.used)
      × IsLane after
      × (after.concurrency ≡ other.concurrency)
on_acquire true mine other h g (a, b) =
    let u = ap (λ l. l.used) (h refl) in
    let c = ap (λ l. l.concurrency) (h refl) in (omega arith, (omega arith, ground arith), sym c)
on_acquire false mine other h g l = (refl, l, refl)

on_release :
    (same : Bool) (mine other : Lane)
    → (same ≡ true → other ≡ mine)
    → weight (same && true) ≤ other.used
    → IsLane other
    → let after = (if same then record mine { used = mine.used - 1 } else other) in
      (weight (same && false) + other.used ≡ weight (same && true) + after.used)
      × IsLane after
      × (after.concurrency ≡ other.concurrency)
on_release true mine other h w (a, b) =
    let u = ap (λ l. l.used) (h refl) in
    let c = ap (λ l. l.concurrency) (h refl) in (omega arith, (omega arith, omega arith), sym c)
on_release false mine other h w l = (refl, l, refl)

pub take_step-SlotBalance :
    (move : Move) (phase : Phase) (name : String) (q : Queue) (lane session : String)
    → Slotted name q (record { lane = lane; session = session; phase = phase })
    → OnSome
        (SlotBalance name q (record { lane = lane; session = session; phase = phase }))
        (take_step move phase q (record { lane = lane; session = session; phase = phase }))
unfolding take_step set_locked get_lane
take_step-SlotBalance lock waiting_session name q lane session (w, l) =
    elim (Bool-cases (q.locked session)) [ inl e ↦ rw e tt | inr e ↦ rw e (refl, l, refl) ]
take_step-SlotBalance acquire waiting_lane name q lane session (w, l) =
    elim (Bool-cases (ltb (get_lane q lane).used (get_lane q lane).concurrency)) [
      | inr e ↦ rw e tt
      | inl e ↦
          rw
            (
              e,
              get_lane-set_lane lane name
                  (record (get_lane q lane) { used = suc (get_lane q lane).used }) q,
            )
            (on_acquire (str_eq lane name) (get_lane q lane) (get_lane q name)
              (λ same. ap (get_lane q) (sym ((eq_iff lane name).0 same))) e l)
    ]
take_step-SlotBalance cancel waiting_lane name q lane session (w, l) = (refl, l, refl)
take_step-SlotBalance release running name q lane session (w, l) =
    rw
      (get_lane-set_lane lane name (record (get_lane q lane) { used = (get_lane q lane).used - 1 })
        q)
      (on_release (str_eq lane name) (get_lane q lane) (get_lane q name)
        (λ same. ap (get_lane q) (sym ((eq_iff lane name).0 same))) w l)
take_step-SlotBalance unlock (leaving worked) name q lane session (w, l) = (refl, l, refl)
take_step-SlotBalance move phase name q lane session h = tt
