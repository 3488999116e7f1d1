-- ===== src/Chain/Asked.antt =====
-- What the gate says of a call (agent/chain.go, `refuseToolCall`).
use inber.Prelude.{
  subst, eq_iff, ◌≢◌, if◌then◌else◌, String, ◌≡◌, refl, ◌⊎◌, inl, inr, Option, none, some,
  Bool-cases, str_eq,
}
use inber.ToolOutcome.{Dispatch}
use inber.Chain.{refused}

module _ {V W : Type 0} (d : Dispatch V W) where
  -- There is no gate, or it gives no reason; and the gate gives this reason, which is not empty.
  abbrev pub Lets : String → String → Type 0
  Lets tool input =
      (d.refusal ≡ none)
      ⊎ ((gate : String → String → String) × (d.refusal ≡ some gate) × (gate tool input ≡ ""))

  abbrev pub Refuses : String → String → String → Type 0
  Refuses tool input reason =
      (gate : String → String → String) × (d.refusal ≡ some gate)
      × (gate tool input ≡ reason)
      × (reason ≢ "")

  -- What the code finds of the gate, and what the gate says.
  abbrev Says : String → String → Option String → Type 0
  Says tool input none = Lets tool input
  Says tool input (some reason) = Refuses tool input reason

  refused-Says : (tool input : String) → Says tool input (refused d tool input)
  refused-Says tool input = asked d.refusal refl
    where
      asked :
          (gate : Option (String → String → String))
          → d.refusal ≡ gate
          → Says tool input (elim gate [
            | none ↦ none
            | some g ↦ if str_eq (g tool input) "" then none else some (g tool input)
          ])
      asked none e = inl e
      asked (some g) e = elim (Bool-cases (str_eq (g tool input) "")) [
        | inl blank ↦ rw blank (inr (g, e, (eq_iff (g tool input) "").0 blank))
        | inr said ↦ rw said (g, e, refl, λ empty. cc ((eq_iff (g tool input) "").1 empty, said))
      ]

  pub says :
      (tool input : String) (found : Option String)
      → refused d tool input ≡ found
      → Says tool input found
  says tool input found e = subst (Says tool input) e (refused-Says tool input)
