-- ===== src/Turns/Alternation.antt =====
-- The two passes for alternation, of conversation/message_utils.go and of conversation/repair.go.
use mathlib.Core.List.{reverse-cons}
use inber.Prelude.{◌≡◌, refl, ap, ◌∙◌, inl, inr, List, [], ◌∷◌, ◌++◌, reverse, append_assoc}
use inber.Message.{Message}
use inber.Repair.{continued, alternate, repair_alternation}
use inber.Repair.Alternation.{join_cases}
use inber.Turns.{fix_loop, fix_alternation}

reverse-cons_append :
    (x : Message) (xs ys : List Message) → reverse (x ∷ xs) ++ ys ≡ reverse xs ++ x ∷ ys
reverse-cons_append x xs ys =
    ap (λ zs. zs ++ ys) (reverse-cons x xs) ∙ append_assoc (reverse xs) (x ∷ []) ys

reverse-fix_loop :
    (prev : Message) (before rest : List Message)
    → reverse (fix_loop (prev ∷ before) rest) ≡ reverse before ++ alternate prev rest
unfolding fix_loop alternate
reverse-fix_loop prev before [] = reverse-cons prev before
reverse-fix_loop prev before (curr ∷ rest) = elim (join_cases prev.role curr.role) [
  | inl (e, _, _) ↦ rw (e, fix_loop, alternate) (reverse-fix_loop _ before rest)
  | inr (inl (e, _, _)) ↦
      rw (e, fix_loop, alternate)
        (reverse-fix_loop curr (continued ∷ prev ∷ before) rest
          ∙ reverse-cons_append continued (prev ∷ before) (alternate curr rest)
          ∙ reverse-cons_append prev before (continued ∷ alternate curr rest))
  | inr (inr (e, _)) ↦
      rw (e, fix_loop, alternate)
        (reverse-fix_loop curr (prev ∷ before) rest
          ∙ reverse-cons_append prev before (alternate curr rest))
]

-- `fixAlternation` and `RepairAlternation` give the same transcript.
pub fix_alternation-eq-repair_alternation :
    (ms : List Message) → fix_alternation ms ≡ repair_alternation ms
unfolding fix_alternation repair_alternation
fix_alternation-eq-repair_alternation [] = refl
fix_alternation-eq-repair_alternation (m ∷ rest) = reverse-fix_loop m [] rest
