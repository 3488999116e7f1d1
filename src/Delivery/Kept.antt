-- ===== src/Delivery/Kept.antt =====
-- What becomes of the messages of a session (server/session.go, engine/engine.go).
use inber.Prelude.{◌+◌, ◌≤◌, String, ◌≡◌, ◌⊎◌, [], true, false, length}
use inber.Delivery.{idle, completed, Inbox, injections_capacity, buffered, History}
use inber.Delivery.Offered.{copies, waiting_copies}

-- Where a session stands between its turns.
abbrev pub IsAtRest : Inbox → Type 0
IsAtRest s = (buffered s.injections ≡ []) × ((s.status ≡ idle) ⊎ (s.status ≡ completed))

abbrev Accounted : String → History → Type 0
Accounted message h =
    (copies message h.taken
      ≡ (copies message h.given + copies message h.unheard)
        + (copies message h.in_hand + waiting_copies message h.inbox))
    × (length (buffered h.inbox.injections) ≤ injections_capacity)
    × (h.in_flight ≡ false → IsAtRest h.inbox × (h.in_hand ≡ []))
    × (h.agent_runs ≡ true → h.in_hand ≡ [])
    × ((h.unheard ≡ []) ⊎ (1 ≤ h.turned_away))
