-- ===== src/Spawn/Stream.antt =====
-- What a parent's stream shows of the sessions below it (server/spawn.go).
use inber.Prelude.{
  ℕ, String, ◌≡◌, refl, ap, ◌∙◌, List, [], ◌∷◌, Option, none, some, Bool, true, false, ◌||◌, str_eq,
  if◌then◌else◌, inl, inr, ◌⊎◌, Bool-cases,
}

-- `Data` of an envelope, as far as it names where the event comes from.
pub record Origin : Type 0 where
  pub agent : String
  pub session_key : String
  pub parent_key : String
  pub depth : ℕ

pub record StreamEvent : Type 0 where
  pub kind : String
  pub text : String
  pub tool : String
  pub tool_id : String
  pub turn : ℕ
  pub message_id : String
  pub origin : Option Origin

abbrev event_kind_agent_update : String
event_kind_agent_update = "agent_update"

abbrev event_kind_agent_spawned : String
event_kind_agent_spawned = "agent_spawned"

abbrev event_kind_agent_done : String
event_kind_agent_done = "agent_done"

unfoldable pub is_progress : String → Bool
is_progress kind = str_eq kind "status" || str_eq kind "thinking"

unfoldable pub is_envelope : String → Bool
is_envelope kind =
    str_eq kind event_kind_agent_update
    || str_eq kind event_kind_agent_spawned
    || str_eq kind event_kind_agent_done

abbrev pub envelope : Origin → StreamEvent → StreamEvent
envelope origin ev = record {
  kind = event_kind_agent_update;
  text = ev.text;
  tool = "";
  tool_id = "";
  turn = ev.turn;
  message_id = "";
  origin = some origin;
}

-- `newSubagentEventForwarder`: what the parent's stream is given of an event of a child, if anything.
unfoldable pub new_subagent_event_forwarder : Origin → StreamEvent → Option StreamEvent
new_subagent_event_forwarder origin ev =
    if is_progress ev.kind
    then some (envelope origin ev)
    else if is_envelope ev.kind
    then some ev
    else none

-- `emit` and `emitToParentStream`: a parent without a stream is given nothing.
abbrev pub emit_to_parent_stream : Bool → Option StreamEvent → Option StreamEvent
emit_to_parent_stream streaming ev = if streaming then ev else none

-- A session below others, the nearest first, each with whether its parent has a stream at this moment; the
-- stream of a parent that was itself spawned is the forwarder to the next.
unfoldable pub travel : List (Origin × Bool) → Option StreamEvent → Option StreamEvent
travel [] ev = ev
travel (hop ∷ hops) none = none
travel ((origin, streaming) ∷ hops) (some ev) =
    travel hops (emit_to_parent_stream streaming (new_subagent_event_forwarder origin ev))

unfoldable pub all_streaming : List (Origin × Bool) → Bool
all_streaming [] = true
all_streaming ((origin, streaming) ∷ hops) = if streaming then all_streaming hops else false

travel-nothing : (hops : List (Origin × Bool)) → travel hops none ≡ none
unfolding travel
travel-nothing [] = refl
travel-nothing (hop ∷ hops) = refl

forwarder_envelope :
    (origin : Origin) (ev : StreamEvent)
    → is_progress ev.kind ≡ false
    → is_envelope ev.kind ≡ true
    → new_subagent_event_forwarder origin ev ≡ some ev
unfolding new_subagent_event_forwarder
forwarder_envelope origin ev p e = rw (p, e) refl

travel_envelope :
    (hops : List (Origin × Bool)) (ev : StreamEvent)
    → is_progress ev.kind ≡ false
    → is_envelope ev.kind ≡ true
    → travel hops (some ev) ≡ (if all_streaming hops then some ev else none)
unfolding travel all_streaming
travel_envelope [] ev p e = refl
travel_envelope ((origin, true) ∷ hops) ev p e =
    ap (travel hops) (forwarder_envelope origin ev p e) ∙ travel_envelope hops ev p e
travel_envelope ((origin, false) ∷ hops) ev p e = travel-nothing hops

abbrev shown : Bool → Bool → Origin → StreamEvent → Option StreamEvent
shown true envelope_kind origin ev = some (envelope origin ev)
shown false true origin ev = some ev
shown false false origin ev = none

forwarded-shown :
    (origin : Origin) (hops : List (Origin × Bool)) (ev : StreamEvent)
    → (is_progress ev.kind ≡ true) ⊎ (is_progress ev.kind ≡ false)
    → (is_envelope ev.kind ≡ true) ⊎ (is_envelope ev.kind ≡ false)
    → travel hops (new_subagent_event_forwarder origin ev) ≡ (
        if all_streaming hops
        then shown (is_progress ev.kind) (is_envelope ev.kind) origin ev
        else none)
unfolding new_subagent_event_forwarder is_progress is_envelope
forwarded-shown origin hops ev (inl p) e =
    rw p (travel_envelope hops (envelope origin ev) refl refl)
forwarded-shown origin hops ev (inr p) (inl e) = rw (p, e) (travel_envelope hops ev p e)
forwarded-shown origin hops ev (inr p) (inr e) =
    rw (p, e) (travel-nothing hops ∙ nothing (all_streaming hops))
  where
    nothing : (b : Bool) → ◌≡◌ {A = Option StreamEvent} none (if b then none else none)
    nothing true = refl
    nothing false = refl

-- However many sessions lie above, the top stream is given a child's progress as an envelope of that child,
-- an envelope as it is and of the rest nothing, if each session in between has a stream; if one has none,
-- nothing at all.
pub travel-origin :
    (origin : Origin) (streaming : Bool) (hops : List (Origin × Bool)) (ev : StreamEvent)
    → travel ((origin, streaming) ∷ hops) (some ev) ≡ (
        if all_streaming ((origin, streaming) ∷ hops)
        then shown (is_progress ev.kind) (is_envelope ev.kind) origin ev
        else none)
unfolding travel all_streaming
travel-origin origin false hops ev = travel-nothing hops
travel-origin origin true hops ev =
    forwarded-shown origin hops ev (Bool-cases (is_progress ev.kind))
      (Bool-cases (is_envelope ev.kind))
