-- ===== src/Samples/Deliveries.antt =====
-- Messages for a session while a turn is in flight, and after it.
use inber.Prelude.{◌≡◌, refl, List, [], ◌∷◌, true, false, none}
use inber.Delivery.{
  runs_agent, Inbox, idle, running, Action, delivers, injects, queues, begins, reads, fails, ends,
  stops, History, act_all, new_history, begin_turn,
}

-- The first message is read by the turn, the second is taken by it and never read.
abbrev actions : List Action
actions =
    queues "a"
    ∷ begins "go"
    ∷ runs_agent
    ∷ delivers "b"
    ∷ reads
    ∷ delivers "c"
    ∷ fails
    ∷ ends
    ∷ injects "d"
    ∷ []

left_over : (act_all actions (new_history true)).inbox.pending_messages ≡ "c" ∷ []
unfolding act_all inber.Delivery.act inber.Delivery.deliver inber.Delivery.inject_if_running
    inber.Delivery.queue_pending inber.Delivery.begin_turn inber.Delivery.fail_turn
    inber.Delivery.end_turn inber.Delivery.requeue_injections_the_turn_never_read
    inber.Delivery.check_injections
left_over = refl

abbrev waiter : Inbox
waiter = record {
  status = idle;
  injections = none;
  pending_messages = "a" ∷ "b" ∷ [];
  cancellable = false;
}

prefixed : (begin_turn "go" waiter).0 ≡ "a\n\n---\n\nb\n\n---\n\ngo"
unfolding begin_turn inber.Transcript.join
prefixed = refl

-- A turn that the guard turns away takes the pending messages with it.
abbrev refused_turn : List Action
refused_turn = queues "a" ∷ begins "go" ∷ fails ∷ ends ∷ []

lost_message :
    ((act_all refused_turn (new_history true)).unheard ≡ "a" ∷ [])
    × ((act_all refused_turn (new_history true)).inbox.pending_messages ≡ [])
unfolding act_all inber.Delivery.act inber.Delivery.queue_pending begin_turn
    inber.Delivery.fail_turn inber.Delivery.end_turn
    inber.Delivery.requeue_injections_the_turn_never_read
lost_message = (refl, refl)
