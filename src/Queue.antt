-- ===== src/Queue.antt =====
-- server/queue.go: work in lanes, one run at a time on a session. A call of `Enqueue` is a task; what it
-- does between two points where it may block is one step, and a run of the server is an interleaving of
-- the steps of its tasks.
use inber.Prelude.{
  ℕ, suc, ◌+◌, ◌-◌, ◌≤◌, String, ◌≡◌, List, [], ◌∷◌, ◌++◌, Option, none, some, Bool, true, false,
  ◌&&◌, str_eq, ltb, if◌then◌else◌, weight,
}
use inber.Prelude.Int.{ℤ, pos, negsuc, ltb_ℤ, pos_part}
pub mod Balance
pub mod Exclusion
pub mod Progress

-- A semaphore: the size of its channel, and how full it is.
pub record Lane : Type 0 where
  pub concurrency : ℕ
  pub used : ℕ

-- The lanes there are, and the session mutexes that are locked.
pub record Queue : Type 0 where
  pub lanes : String → Option Lane
  pub locked : String → Bool

abbrev pub at_least_one : ℤ → ℕ
at_least_one n = if ltb_ℤ n (pos 1) then 1 else pos_part n

abbrev pub configured : List (String × ℤ) → String → Option Lane
configured [] name = none
configured ((n, concurrency) ∷ rest) name =
    let found = configured rest name in
    if str_eq n name
    then some (record { concurrency = at_least_one concurrency; used = 0 })
    else found

abbrev pub new_queue : List (String × ℤ) → Queue
new_queue lanes = record { lanes = configured lanes; locked = λ key. false }

-- Where a task stands; a task that leaves or has returned says whether its work was run.
pub data Phase : Type 0 where
  waiting_session waiting_lane running : Phase
  leaving returned : Bool → Phase

pub record Task : Type 0 where
  pub lane : String
  pub session : String
  pub phase : Phase

abbrev pub or_default : Option Lane → Lane
or_default none = record { concurrency = 1; used = 0 }
or_default (some lane) = lane

-- `getLane`: a lane that is missing is made, with one slot.
unfoldable pub get_lane : Queue → String → Lane
get_lane q name = or_default (q.lanes name)

unfoldable pub set_lane : String → Lane → Queue → Queue
set_lane name lane q = record q {
  lanes = λ other. if str_eq name other then some lane else q.lanes other;
}

unfoldable pub set_locked : String → Bool → Queue → Queue
set_locked key value q = record q {
  locked = λ other. if str_eq key other then value else q.locked other;
}

-- `smu.Lock()`, the two cases of the `select`, the end of the work with its deferred release, and the
-- deferred unlock.
pub data Move : Type 0 where
  lock acquire cancel release unlock : Move

abbrev pub moved : Queue → Task → Phase → Option (Queue × Task)
moved q t phase = some (q, record t { phase = phase })

abbrev pub try_lock : Queue → Task → Option (Queue × Task)
try_lock q t =
    if q.locked t.session then none else moved (set_locked t.session true q) t waiting_lane

abbrev pub try_acquire : Queue → Task → Option (Queue × Task)
try_acquire q t =
    let lane = get_lane q t.lane in
    if ltb lane.used lane.concurrency
    then moved (set_lane t.lane (record lane { used = suc lane.used }) q) t running
    else none

abbrev pub release_slot : Queue → Task → Queue
release_slot q t =
    let lane = get_lane q t.lane in set_lane t.lane (record lane { used = lane.used - 1 }) q

-- One step of a task, `none` if it has to wait or is elsewhere.
unfoldable pub take_step : Move → Phase → Queue → Task → Option (Queue × Task)
take_step lock waiting_session q t = try_lock q t
take_step acquire waiting_lane q t = try_acquire q t
take_step cancel waiting_lane q t = moved q t (leaving false)
take_step release running q t = moved (release_slot q t) t (leaving true)
take_step unlock (leaving worked) q t = moved (set_locked t.session false q) t (returned worked)
take_step move phase q t = none

abbrev pub step_task : Move → Queue → Task → Option (Queue × Task)
step_task move q t = take_step move t.phase q t

abbrev pub enqueue : String → String → Task
enqueue lane session = record { lane = lane; session = session; phase = waiting_session }

-- The queue and the calls there have been.
abbrev pub Server : Type 0
Server = Queue × List Task

-- A call comes in, or one of the tasks takes a step.
pub data Step : Server → Server → Type 0 where
  called :
      (q : Queue) (tasks : List Task) (lane session : String)
      → Step (q, tasks) (q, enqueue lane session ∷ tasks)
  stepped :
      (q q' : Queue) (before : List Task) (t t' : Task) (after : List Task) (move : Move)
      → step_task move q t ≡ some (q', t')
      → Step (q, before ++ t ∷ after) (q', before ++ t' ∷ after)

pub data Reachable (lanes : List (String × ℤ)) : Server → Type 0 where
  start : Reachable lanes (new_queue lanes, [])
  next : {s s' : Server} → Reachable lanes s → Step s s' → Reachable lanes s'

abbrev pub is_running : Phase → Bool
is_running waiting_session = false
is_running waiting_lane = false
is_running running = true
is_running (leaving worked) = false
is_running (returned worked) = false

abbrev pub holds_lock : Phase → Bool
holds_lock waiting_session = false
holds_lock waiting_lane = true
holds_lock running = true
holds_lock (leaving worked) = true
holds_lock (returned worked) = false

-- The tasks that hold the mutex of a session, and those that run in a lane or on a session.
unfoldable pub holders : String → List Task → ℕ
holders key [] = 0
holders key (t ∷ ts) = weight (str_eq t.session key && holds_lock t.phase) + holders key ts

unfoldable pub running_in : String → List Task → ℕ
running_in name [] = 0
running_in name (t ∷ ts) = weight (str_eq t.lane name && is_running t.phase) + running_in name ts

unfoldable pub running_on : String → List Task → ℕ
running_on key [] = 0
running_on key (t ∷ ts) = weight (str_eq t.session key && is_running t.phase) + running_on key ts
