-- ===== src/Queue/Exclusion.antt =====
-- The tasks that run on a session and in a lane (server/queue.go).
use inber.Prelude.{
  ℕ, ◌+◌, ◌≤◌, String, ◌≡◌, refl, sym, ap, ◌∙◌, inl, inr, List, [], ◌∷◌, ◌++◌, Bool, true, false,
  ◌&&◌, str_eq, Bool-cases, arith, on_some, weight, weight_bound,
}
use inber.Prelude.Int.{ℤ, pos, negsuc}
use inber.Queue.{
  Queue, Phase, waiting_session, waiting_lane, running, leaving, returned, Task, get_lane,
  is_running, holds_lock, holders, running_in, running_on, Server, Step, called, stepped, Reachable,
  start, next, new_queue, at_least_one,
}
use inber.Queue.Balance.{
  LockBalance, SlotBalance, IsLane, take_step-LockBalance, take_step-SlotBalance,
}

holders-append :
    (key : String) (xs ys : List Task) → holders key (xs ++ ys) ≡ holders key xs + holders key ys
unfolding holders
holders-append key [] ys = omega arith
holders-append key (x ∷ xs) ys = omega (arith, holders-append key xs ys)

running_in-append :
    (name : String) (xs ys : List Task)
    → running_in name (xs ++ ys) ≡ running_in name xs + running_in name ys
unfolding running_in
running_in-append name [] ys = omega arith
running_in-append name (x ∷ xs) ys = omega (arith, running_in-append name xs ys)

-- A mutex is locked by one task, or free; a lane is as full as tasks run in it, not too full, and of the
-- size it was made with.
abbrev pub Sound : List (String × ℤ) → Server → Type 0
Sound lanes (q, tasks) =
    ((key : String) → holders key tasks ≡ weight (q.locked key))
    × ((name : String)
        → (running_in name tasks ≡ (get_lane q name).used)
          × IsLane (get_lane q name)
          × ((get_lane q name).concurrency ≡ (get_lane (new_queue lanes) name).concurrency))

at_least_one_positive : (n : ℤ) → 1 ≤ at_least_one n
at_least_one_positive (pos n) = ground arith
at_least_one_positive (negsuc n) = ground arith

new_queue-IsLane :
    (lanes : List (String × ℤ)) (name : String)
    → (0 ≡ (get_lane (new_queue lanes) name).used) × IsLane (get_lane (new_queue lanes) name)
unfolding get_lane
new_queue-IsLane [] name = (refl, (omega arith, omega arith))
new_queue-IsLane ((n, concurrency) ∷ rest) name = elim (Bool-cases (str_eq n name)) [
  | inl e ↦ rw e (refl, (at_least_one_positive concurrency, omega arith))
  | inr e ↦ rw e (new_queue-IsLane rest name)
]

weight-false : (b : Bool) → weight (b && false) ≡ 0
weight-false true = refl
weight-false false = refl

-- The counts of the tasks around one that takes a step.
holders-around :
    (key : String) (before : List Task) (t : Task) (after : List Task)
    → holders key (before ++ t ∷ after)
      ≡ holders key before
        + (weight (str_eq t.session key && holds_lock t.phase) + holders key after)
unfolding holders
holders-around key before t after = holders-append key before (t ∷ after)

running_in-around :
    (name : String) (before : List Task) (t : Task) (after : List Task)
    → running_in name (before ++ t ∷ after)
      ≡ running_in name before
        + (weight (str_eq t.lane name && is_running t.phase) + running_in name after)
unfolding running_in
running_in-around name before t after = running_in-append name before (t ∷ after)

-- One task among others, with what it is counted for.
shift :
    (before w w' after l l' : ℕ)
    → before + (w + after) ≡ l
    → w' + l ≡ w + l'
    → before + (w' + after) ≡ l'
shift before w w' after l l' h b = omega arith

part : (before w after l : ℕ) → before + (w + after) ≡ l → w ≤ l
part before w after l h = omega arith

Step-Sound :
    (lanes : List (String × ℤ)) {s s' : Server} → Step s s' → Sound lanes s → Sound lanes s'
unfolding holders running_in
Step-Sound made (called q tasks lane session) (locks, slots) = (
  λ key.
      ap (λ n. n + holders key tasks) (weight-false (str_eq session key))
      ∙ omega (arith, locks key),
  λ name. (
    ap (λ n. n + running_in name tasks) (weight-false (str_eq lane name))
        ∙ omega (arith, (slots name).0),
    (slots name).1,
    (slots name).2,
  ),
)
Step-Sound made (stepped q q' before t t' after move e) (locks, slots) = (
  λ key.
      let counted = sym (holders-around key before t after) ∙ locks key in
      let balance =
        on_some (LockBalance key q t) _ _
          (take_step-LockBalance move t.phase key q t.lane t.session
            (part (holders key before) _ (holders key after) _ counted))
          e in
      holders-around key before t' after
      ∙ shift (holders key before) _ _ (holders key after) _ _ counted balance,
  λ name.
      let counted = sym (running_in-around name before t after) ∙ (slots name).0 in
      let balance =
        on_some (SlotBalance name q t) _ _
          (take_step-SlotBalance move t.phase name q t.lane t.session
            (part (running_in name before) _ (running_in name after) _ counted, (slots name).1))
          e in
      (
        running_in-around name before t' after
            ∙ shift (running_in name before) _ _ (running_in name after) _ _ counted balance.0,
        balance.1,
        balance.2 ∙ (slots name).2,
      ),
)

pub Reachable-Sound : {lanes : List (String × ℤ)} {s : Server} → Reachable lanes s → Sound lanes s
unfolding holders running_in
Reachable-Sound {lanes = lanes} start =
    (λ key. refl, λ name. ((new_queue-IsLane lanes name).0, (new_queue-IsLane lanes name).1, refl))
Reachable-Sound (next r step) = Step-Sound _ step (Reachable-Sound r)

running_on-holders : (key : String) (tasks : List Task) → running_on key tasks ≤ holders key tasks
unfolding holders running_on
running_on-holders key [] = omega arith
running_on-holders key (t ∷ tasks) =
    omega (arith, running_on-holders key tasks, runner_holds (str_eq t.session key) t.phase)
  where
    runner_holds :
        (same : Bool) (phase : Phase)
        → weight (same && is_running phase) ≤ weight (same && holds_lock phase)
    runner_holds false phase = omega arith
    runner_holds true waiting_session = omega arith
    runner_holds true waiting_lane = omega arith
    runner_holds true running = omega arith
    runner_holds true (leaving worked) = omega arith
    runner_holds true (returned worked) = omega arith

-- However the calls interleave, at most one task runs on a session, and in a lane no more than the lane
-- was made for: the configured number, or one if that is less, or one for a lane that was not configured.
pub Reachable_exclusion :
    (lanes : List (String × ℤ)) (q : Queue) (tasks : List Task) (key name : String)
    → Reachable lanes (q, tasks)
    → (running_on key tasks ≤ 1)
      × (running_in name tasks ≤ (get_lane (new_queue lanes) name).concurrency)
Reachable_exclusion lanes q tasks key name r =
    let sound = Reachable-Sound r in
    let slots = sound.1 name in
    let room = slots.1.1 in
    (
      omega (arith, running_on-holders key tasks, sound.0 key, weight_bound (q.locked key)),
      omega (arith, slots.0, slots.2),
    )
