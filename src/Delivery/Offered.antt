-- ===== src/Delivery/Offered.antt =====
-- What an offer to the turn in flight does, counted (server/session.go).
use inber.Prelude.{
  ℕ, suc, ◌+◌, ◌≤◌, String, ◌≡◌, refl, ap, inl, inr, List, [], ◌∷◌, ◌++◌, Option, none, some, true,
  str_eq, ltb, length, length-append, arith, Bool-cases, if◌then◌else◌,
}
use inber.Delivery.{Inbox, injections_capacity, is_running, send, offer_to_turn_in_flight, buffered}

unfoldable pub copies : String → List String → ℕ
copies message [] = 0
copies message (m ∷ ms) = (if str_eq m message then 1 else 0) + copies message ms

pub copies-append :
    (message : String) (xs ys : List String)
    → copies message (xs ++ ys) ≡ copies message xs + copies message ys
unfolding copies
copies-append message [] ys = omega arith
copies-append message (x ∷ xs) ys = omega (arith, copies-append message xs ys)

abbrev pub waiting_copies : String → Inbox → ℕ
waiting_copies message s =
    copies message (buffered s.injections) + copies message s.pending_messages

-- What an offer does, if the message is taken.
abbrev pub Took : String → String → Inbox → Option Inbox → Type 0
Took message other s none = Unit {0}
Took message other s (some s') =
    (waiting_copies other s' ≡ copies other (message ∷ []) + waiting_copies other s)
    × (length (buffered s'.injections) ≤ injections_capacity)
    × (is_running s.status ≡ true)

send-Took :
    (message other : String) (s : Inbox) (channel : Option (List String))
    → s.injections ≡ channel
    → is_running s.status ≡ true
    → Took message other s (send message s channel)
unfolding copies
send-Took message other s none e r = tt
send-Took message other s (some waiting) e r =
    elim (Bool-cases (ltb (length waiting) injections_capacity)) [
      | inr g ↦ rw g tt
      | inl g ↦ rw g (
        omega (
          arith,
          copies-append other waiting (message ∷ []),
          ap (λ c. copies other (buffered c)) e,
        ),
        room g (omega (arith, length-append waiting (message ∷ []))),
        r,
      )
    ]
  where
    room : {n l : ℕ} → ltb n injections_capacity ≡ true → l ≡ suc n → l ≤ injections_capacity
    room g e = ground arith

pub offer-Took :
    (message other : String) (s : Inbox) → Took message other s (offer_to_turn_in_flight message s)
offer-Took message other s = elim (Bool-cases (is_running s.status)) [
  | inl r ↦ rw r (send-Took message other s s.injections refl r)
  | inr r ↦ rw r tt
]
