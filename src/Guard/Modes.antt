-- ===== src/Guard/Modes.antt =====
-- Mode names and tool verdicts (guard/mode.go, `CheckTool` and the tool classes of
-- guard/guard.go).
use mathlib.Core.Bool.{false≢true}
use inber.Prelude.{
  String, ◌≡◌, ◌≢◌, refl, subst, ◌↔◌, ◌⊎◌, inl, inr, List, [], ◌∷◌, Option, none, some, true, false,
  arith, contains, str_eq, eq_iff, All, Bool-cases,
}
use inber.Guard.{
  Mode, unset, observe, assist, autonomous, mode_name, parse_mode, allowed, needs_approval, denied,
  Approver, approves, read_only_tools, dangerous_tools, is_read_only, is_dangerous, check_mode,
}

-- A name is either read as the mode that bears it, or refused, naming it, with the strictest mode.
pub parse_mode_cases :
    (name : String)
    → (((parse_mode name).1 ≡ none) × (mode_name (parse_mode name).0 ≡ name))
      ⊎ (parse_mode name ≡ (observe, some name))
unfolding parse_mode
parse_mode_cases name =
    ground
      (arith, eq_iff name "", eq_iff name "observe", eq_iff name "assist", eq_iff name "autonomous")

-- What holds of each entry of a list holds of whatever the list contains.
contains_elim :
    (P : String → Type 0) (xs : List String) (s : String) → contains xs s ≡ true → All P xs → P s
contains_elim P [] s h a = absurd (false≢true h)
contains_elim P (x ∷ xs) s h (p, ps) = elim (Bool-cases (str_eq x s)) [
  | inl e ↦ subst P ((eq_iff x s).0 e) p
  | inr e ↦ contains_elim P xs s (rw e at h) ps
]

read_only_not_dangerous : (tool : String) → is_read_only tool ≡ true → is_dangerous tool ≡ false
unfolding is_read_only is_dangerous
read_only_not_dangerous tool h =
    contains_elim (λ t. contains dangerous_tools t ≡ false) read_only_tools tool h
      (refl, (refl, (refl, (refl, (refl, (refl, (refl, (refl, tt))))))))

-- Whatever the strictest mode allows, every mode allows, whoever approves.
pub check_mode_of_observe :
    (m : Mode) (approve approve' : Option Approver) (tool input : String)
    → check_mode observe approve tool input ≡ allowed
    → check_mode m approve' tool input ≡ allowed
unfolding check_mode
check_mode_of_observe unset a b tool input h = refl
check_mode_of_observe autonomous a b tool input h = refl
check_mode_of_observe observe a b tool input h = h
check_mode_of_observe assist a b tool input h = ground (arith, read_only_not_dangerous tool)

-- Observe mode allows the read-only tools and no others, and never asks; assist mode allows a tool
-- exactly when it is not dangerous or the approver agrees, and never denies.
pub check_mode_gates :
    (approve : Option Approver) (tool input : String)
    → ((check_mode observe approve tool input ≡ allowed) ↔ (is_read_only tool ≡ true))
      × (check_mode observe approve tool input ≢ needs_approval)
      × ((check_mode assist approve tool input ≡ allowed)
          ↔ ((is_dangerous tool ≡ false) ⊎ (approves approve tool input ≡ true)))
      × (check_mode assist approve tool input ≢ denied)
unfolding check_mode
check_mode_gates approve tool input = (ground arith, ground arith, ground arith, ground arith)
