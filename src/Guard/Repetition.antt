-- ===== src/Guard/Repetition.antt =====
-- The detector of repeated tool calls (guard/guard.go, `RecordToolCall` and `IsRepeating`).
use inber.Prelude.{
  ℕ, suc, String, ◌≡◌, refl, inl, inr, List, [], ◌∷◌, Bool, true, false, ◌&&◌, arith, if◌then◌else◌,
  str_eq, eq_iff, Bool-cases,
}
use inber.Prelude.Int.{pos, ◌+ℤ◌, pos-suc}
use inber.Guard.{Guard, record_tool_call}

abbrev pub same_call : String × String → String × String → Bool
same_call (tool, input) (tool', input') = str_eq tool tool' && str_eq input input'

-- How many calls, latest first, are the call given, before one differs.
unfoldable pub streak : String × String → List (String × String) → ℕ
streak c [] = 0
streak c (d ∷ older) = let more = streak c older in if same_call c d then suc more else 0

module _ {F : Type 0} where
  -- The calls of a session, latest first, recorded in the order in which they were made.
  pub record_all : Guard F → List (String × String) → Guard F
  record_all g [] = g
  record_all g (c ∷ older) = record_tool_call (record_all g older) c.0 c.1

  record_tool_call_last :
      (g : Guard F) (tool input : String)
      → ((record_tool_call g tool input).last_tool ≡ tool)
        × ((record_tool_call g tool input).last_input ≡ input)
  unfolding record_tool_call
  record_tool_call_last g tool input =
      ground (arith, eq_iff tool g.last_tool, eq_iff input g.last_input)

  record_tool_call_count :
      (g : Guard F) (tool input : String)
      → (record_tool_call g tool input).repeat_count ≡ (
          if same_call (tool, input) (g.last_tool, g.last_input)
          then g.repeat_count +ℤ pos 1
          else pos 1)
  unfolding record_tool_call
  record_tool_call_count g tool input = ground arith

  record_tool_call_threshold :
      (g : Guard F) (tool input : String)
      → (record_tool_call g tool input).cfg.repetition_threshold ≡ g.cfg.repetition_threshold
  unfolding record_tool_call
  record_tool_call_threshold g tool input = ground arith

same_call-eq : (c d : String × String) → same_call c d ≡ true → d ≡ c
same_call-eq (tool, input) (tool', input') e =
    ground (arith, eq_iff tool tool', eq_iff input input')

if_same {ℓ} : {A : Type ℓ} (b : Bool) (x : A) → (if b then x else x) ≡ x
if_same true x = refl
if_same false x = refl

module _ {F : Type 0} (g : Guard F) (fresh : g.repeat_count ≡ pos 0) where
  -- From a guard that has counted nothing, the counter is the length of the latest run of equal
  -- calls.
  pub repeat_count-record_all :
      (c : String × String) (older : List (String × String))
      → (record_all g (c ∷ older)).repeat_count ≡ pos (suc (streak c older))
  unfolding record_all streak
  repeat_count-record_all c [] =
      rw (record_tool_call_count g c.0 c.1, fresh, pos-suc) (if_same _ (pos 1))
  repeat_count-record_all c (d ∷ older) =
      rw
        (
          record_tool_call_count (record_all g (d ∷ older)) c.0 c.1,
          (record_tool_call_last (record_all g older) d.0 d.1).0,
          (record_tool_call_last (record_all g older) d.0 d.1).1,
          repeat_count-record_all d older,
          pos-suc,
        )
        (elim (Bool-cases (same_call c d)) [ inl e ↦ rw (e, same_call-eq c d e) | inr e ↦ rw e ])
