-- ===== src/Samples/Queues.antt =====
-- Two calls on one session.
use inber.Prelude.{◌≤◌, String, ◌≡◌, refl, List, [], ◌∷◌, none, true}
use inber.Prelude.Int.{ℤ, pos}
use inber.Queue.{
  Queue, Task, waiting_lane, lock, take_step, step_task, set_locked, new_queue, get_lane, enqueue,
  called, stepped, Reachable, start, next, running_in, running_on,
}
use inber.Queue.Exclusion.{Reachable_exclusion}
use inber.Queue.Progress.{Has, CanStep, Reachable_progress}

abbrev lanes : List (String × ℤ)
lanes = ("main", pos 2) ∷ []

abbrev first : Queue
first = new_queue lanes

abbrev waiter : Task
waiter = enqueue "main" "s"

abbrev holder : Task
holder = record waiter { phase = waiting_lane }

two_calls : Reachable lanes (first, waiter ∷ waiter ∷ [])
two_calls = next (next start (called _ [] "main" "s")) (called _ (waiter ∷ []) "main" "s")

locked_once : Reachable lanes (set_locked "s" true first, holder ∷ waiter ∷ [])
unfolding take_step
locked_once = next two_calls (stepped _ _ [] waiter holder (waiter ∷ []) lock refl)

second_waits : step_task lock (set_locked "s" true first) waiter ≡ none
unfolding take_step set_locked
second_waits = refl

Reachable_exclusion_example :
    (running_on "s" (holder ∷ waiter ∷ []) ≤ 1)
    × (running_in "main" (holder ∷ waiter ∷ []) ≤ (get_lane (new_queue lanes) "main").concurrency)
Reachable_exclusion_example =
    Reachable_exclusion lanes (set_locked "s" true first) (holder ∷ waiter ∷ []) "s" "main"
      locked_once

Reachable_progress_example : Has (CanStep (set_locked "s" true first)) (holder ∷ waiter ∷ [])
Reachable_progress_example =
    Reachable_progress lanes (set_locked "s" true first) (holder ∷ waiter ∷ []) locked_once
      (holder ∷ [], waiter, [], refl, refl)
