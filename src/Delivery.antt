-- ===== src/Delivery.antt =====
-- server/session.go: the messages that reach a session while it works or waits, and engine/build_hooks.go,
-- where the turn in flight reads them, with the guard's check in front of a turn (engine/engine.go). Each method holds the session's mutex throughout, so it is one step.
use Prim.Native.String
use inber.Prelude.{
  suc, ℕ, ◌+◌, String, List, [], ◌∷◌, ◌++◌, Option, none, some, Bool, true, false, ltb, length,
  str_eq, if◌then◌else◌,
}
use inber.Transcript.{join}
pub mod Offered
pub mod Kept

pub data SessionStatus : Type 0 where
  idle running completed error : SessionStatus

-- `injections` is a channel, `none` where the session has none; `cancellable` says whether there is a
-- `cancel` to call.
pub record Inbox : Type 0 where
  pub status : SessionStatus
  pub injections : Option (List String)
  pub pending_messages : List String
  pub cancellable : Bool

abbrev pub injections_capacity : ℕ
injections_capacity = 10

pub data DeliveryRoute : Type 0 where
  delivered_mid_turn delivered_next_turn : DeliveryRoute

abbrev pub is_running : SessionStatus → Bool
is_running running = true
is_running status = false

abbrev pub send : String → Inbox → Option (List String) → Option Inbox
send message s none = none
send message s (some waiting) =
    if ltb (length waiting) injections_capacity
    then some (record s { injections = some (waiting ++ message ∷ []) })
    else none

-- `none` if the turn in flight does not take the message.
abbrev pub offer_to_turn_in_flight : String → Inbox → Option Inbox
offer_to_turn_in_flight message s =
    if is_running s.status then send message s s.injections else none

abbrev pub was_taken : Inbox → Option Inbox → Bool × Inbox
was_taken s none = (false, s)
was_taken s (some s') = (true, s')

unfoldable pub inject_if_running : String → Inbox → Bool × Inbox
inject_if_running message s = was_taken s (offer_to_turn_in_flight message s)

unfoldable pub queue_pending : String → Inbox → Inbox
queue_pending message s = record s { pending_messages = s.pending_messages ++ message ∷ [] }

abbrev pub by_route : String → Inbox → Option Inbox → DeliveryRoute × Inbox
by_route message s none = (delivered_next_turn, queue_pending message s)
by_route message s (some s') = (delivered_mid_turn, s')

unfoldable pub deliver : String → Inbox → DeliveryRoute × Inbox
deliver message s = by_route message s (offer_to_turn_in_flight message s)

-- What is in the channel.
abbrev pub buffered : Option (List String) → List String
buffered none = []
buffered (some waiting) = waiting

abbrev pub emptied : Option (List String) → Option (List String)
emptied none = none
emptied (some waiting) = some []

unfoldable pub requeue_injections_the_turn_never_read : Inbox → Inbox
requeue_injections_the_turn_never_read s = record s {
  injections = emptied s.injections;
  pending_messages = s.pending_messages ++ buffered s.injections;
}

abbrev separator : String
separator = "\n\n---\n\n"

-- The input of a turn, behind the messages that waited for it.
abbrev pub turn_input : List String → String → String
turn_input [] input = input
turn_input (m ∷ ms) input = String.◌++◌ (join separator (m ∷ ms)) (String.◌++◌ separator input)

-- The three holds of the mutex in `turn`: before the engine runs, where it failed, and at the end.
unfoldable pub begin_turn : String → Inbox → String × Inbox
begin_turn input s = (
  turn_input s.pending_messages input,
  record s { status = running; pending_messages = []; cancellable = true },
)

unfoldable pub fail_turn : Inbox → Inbox
fail_turn s = record s { status = error }

unfoldable pub end_turn : Inbox → Inbox
end_turn s =
    requeue_injections_the_turn_never_read (record s { status = idle; cancellable = false })

-- `buildInjectCheck`: all that is in the channel.
unfoldable pub check_injections : Inbox → List String × Inbox
check_injections s = (buffered s.injections, record s { injections = emptied s.injections })

unfoldable pub interrupt : Inbox → Inbox
interrupt s = record s { status = idle; cancellable = false }

unfoldable pub stop : Inbox → Inbox
stop s = record s { status = completed }

-- A session with whether a turn is in flight and its agent runs, the messages it took, those that the turn
-- has in hand, those that an agent was handed and those that no agent was, and how many turns ended before
-- their agent ran.
pub record History : Type 0 where
  pub inbox : Inbox
  pub in_flight : Bool
  pub agent_runs : Bool
  pub taken : List String
  pub in_hand : List String
  pub given : List String
  pub unheard : List String
  pub turned_away : ℕ

pub data Action : Type 0 where
  delivers injects queues begins : String → Action
  runs_agent reads fails ends interrupts stops : Action

abbrev pub injecting : String → History → Bool × Inbox → History
injecting message h (took, s) = record h {
  inbox = s;
  taken = if took then message ∷ h.taken else h.taken;
}

abbrev pub read : History → List String × Inbox → History
read h (messages, s) = record h { inbox = s; given = messages ++ h.given }

-- `RunTurn` behind the check of the guard's limits: what the turn has in hand is in the conversation.
abbrev pub handed_over : History → History
handed_over h = record h { agent_runs = true; in_hand = []; given = h.in_hand ++ h.given }

-- The end of a turn, which had the input in hand to the last if the guard turned it away.
abbrev pub ended : History → History
ended h = record h {
  inbox = end_turn h.inbox;
  in_flight = false;
  agent_runs = false;
  in_hand = [];
  unheard = h.in_hand ++ h.unheard;
  turned_away = if h.agent_runs then h.turned_away else suc h.turned_away;
}

-- One action. A turn begins when none is in flight, which the queue sees to, and the others of a turn happen
-- when one is; its agent reads when it runs.
unfoldable pub act : Action → History → History
act (delivers message) h = record h {
  inbox = (deliver message h.inbox).1;
  taken = message ∷ h.taken;
}
act (injects message) h = injecting message h (inject_if_running message h.inbox)
act (queues message) h = record h {
  inbox = queue_pending message h.inbox;
  taken = message ∷ h.taken;
}
act (begins input) h = if h.in_flight then h else record h {
  inbox = (begin_turn input h.inbox).1;
  in_flight = true;
  agent_runs = false;
  in_hand = h.inbox.pending_messages;
}
act runs_agent h = if h.in_flight then handed_over h else h
act reads h = if h.agent_runs then read h (check_injections h.inbox) else h
act fails h = if h.in_flight then record h { inbox = fail_turn h.inbox } else h
act ends h = if h.in_flight then ended h else h
act interrupts h = record h { inbox = interrupt h.inbox }
act stops h = record h { inbox = stop h.inbox }

unfoldable pub act_all : List Action → History → History
act_all [] h = h
act_all (a ∷ more) h = act_all more (act a h)

-- A session that was made with a channel or without one.
abbrev pub new_history : Bool → History
new_history channel = record {
  inbox = record {
    status = idle;
    injections = if channel then some [] else none;
    pending_messages = [];
    cancellable = false;
  };
  in_flight = false;
  agent_runs = false;
  taken = [];
  in_hand = [];
  given = [];
  unheard = [];
  turned_away = 0;
}
