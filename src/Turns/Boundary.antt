-- ===== src/Turns/Boundary.antt =====
-- The split that `findTurnBoundary` (conversation/message_utils.go) chooses.
use native.Mathlib.Nat.{zero-add, suc-add}
use inber.Prelude.{
  ℕ, zero, suc, ◌+◌, ◌-◌, subst, ◌≤◌, ◌<◌, ◌≡◌, refl, ◌⊎◌, inl, inr, List, [], ◌∷◌, true, length,
  drop, if◌then◌else◌, arith, Bool-cases,
}
use inber.Prelude.Int.{ℤ, pos, leb_ℤ, ◌≤ℤ◌}
use inber.Message.{Block, answer_id, Message}
use inber.Repair.{is_user}
use inber.Turns.{
  count_turns, find_orphaned_tool_results, removed_answers, starts_turn_at, scan_turns, back_up,
  orphans_at, settle, find_turn_boundary, collect_tool_use_ids,
}

List-cases {ℓ} :
    {A : Type ℓ} (xs : List A) → (xs ≡ []) ⊎ ((x : A) × (rest : List A) × (xs ≡ x ∷ rest))
List-cases [] = inl refl
List-cases (x ∷ rest) = inr (x, rest, refl)

removed_answers_of_nil : (bs : List Block) → removed_answers [] bs ≡ []
removed_answers_of_nil [] = refl
removed_answers_of_nil (b ∷ bs) = elim (List-cases (answer_id b)) [
  | inl e ↦ rw (e, removed_answers) (removed_answers_of_nil bs)
  | inr (x, rest, e) ↦ rw (e, removed_answers) (removed_answers_of_nil bs)
]

find_orphaned_of_nil : (ms : List Message) → find_orphaned_tool_results ms [] ≡ []
unfolding find_orphaned_tool_results
find_orphaned_of_nil [] = refl
find_orphaned_of_nil (m ∷ ms) = elim (Bool-cases (is_user m)) [
  | inl u ↦ rw (u, removed_answers_of_nil m.content) (find_orphaned_of_nil ms)
  | inr a ↦ rw a (find_orphaned_of_nil ms)
]

back_up-le : (ms : List Message) (s : ℕ) → back_up ms s ≤ s
unfolding back_up
back_up-le ms zero = omega arith
back_up-le ms (suc s) = ground (arith, back_up-le ms s)

settle-le : (fuel : ℕ) (ms : List Message) (split : ℕ) → settle fuel ms split ≤ split
unfolding settle
settle-le zero ms split = omega arith
settle-le (suc fuel) ms zero = elim (List-cases (orphans_at ms zero)) [
  | inl e ↦ rw (e, settle) (omega arith)
  | inr (x, rest, e) ↦ rw (e, settle) (omega arith)
]
settle-le (suc fuel) ms (suc s) = elim (List-cases (orphans_at ms (suc s))) [
  | inl e ↦ rw (e, settle) (omega arith)
  | inr (x, rest, e) ↦
      rw (e, settle) (omega (arith, settle-le fuel ms (back_up ms s), back_up-le ms s))
]

settle-orphans :
    (fuel : ℕ) (ms : List Message) (split : ℕ)
    → split < fuel
    → orphans_at ms (settle fuel ms split) ≡ []
unfolding settle collect_tool_use_ids
settle-orphans zero ms split h = elim h [ ]
settle-orphans (suc fuel) ms zero h = elim (List-cases (orphans_at ms zero)) [
  | inl e ↦ rw (e, settle) e
  | inr (x, rest, e) ↦ rw (e, settle) (find_orphaned_of_nil ms)
]
settle-orphans (suc fuel) ms (suc s) h = elim (List-cases (orphans_at ms (suc s))) [
  | inl e ↦ rw (e, settle) e
  | inr (x, rest, e) ↦
      rw (e, settle) (settle-orphans fuel ms (back_up ms s) (omega (arith, back_up-le ms s)))
]

-- No tool result behind the split answers a call in front of it: pairs stay together.
pub find_turn_boundary-orphans :
    (ms : List Message) (keep_turns : ℤ) → orphans_at ms (find_turn_boundary ms keep_turns) ≡ []
unfolding find_turn_boundary find_orphaned_tool_results
find_turn_boundary-orphans [] keep_turns = refl
find_turn_boundary-orphans (m ∷ ms) keep_turns =
    settle-orphans _ (m ∷ ms) (scan_turns (m ∷ ms) keep_turns (length (m ∷ ms)) 0) (omega arith)

-- Zero, or the index of a message that starts a turn.
abbrev pub IsTurnStart : List Message → ℕ → Type 0
IsTurnStart ms i = (i ≡ 0) ⊎ (starts_turn_at ms i ≡ true)

back_up-IsTurnStart : (ms : List Message) (s : ℕ) → IsTurnStart ms (back_up ms s)
unfolding back_up
back_up-IsTurnStart ms zero = inl refl
back_up-IsTurnStart ms (suc s) = elim (Bool-cases (starts_turn_at ms (suc s))) [
  | inl e ↦ rw (e, back_up) (inr e)
  | inr e ↦ rw (e, back_up) (back_up-IsTurnStart ms s)
]

settle-IsTurnStart :
    (fuel : ℕ) (ms : List Message) (split : ℕ)
    → IsTurnStart ms split
    → IsTurnStart ms (settle fuel ms split)
unfolding settle
settle-IsTurnStart zero ms split h = h
settle-IsTurnStart (suc fuel) ms zero h = elim (List-cases (orphans_at ms zero)) [
  | inl e ↦ rw (e, settle) h
  | inr (x, rest, e) ↦ rw (e, settle) h
]
settle-IsTurnStart (suc fuel) ms (suc s) h = elim (List-cases (orphans_at ms (suc s))) [
  | inl e ↦ rw (e, settle) h
  | inr (x, rest, e) ↦
      rw (e, settle) (settle-IsTurnStart fuel ms (back_up ms s) (back_up-IsTurnStart ms s))
]

count_turns-drop :
    (ms : List Message) (i : ℕ)
    → count_turns (drop i ms)
      ≡ (if starts_turn_at ms i then 1 else 0) + count_turns (drop (suc i) ms)
unfolding count_turns starts_turn_at
count_turns-drop [] zero = refl
count_turns-drop [] (suc i) = refl
count_turns-drop (m ∷ ms) zero = refl
count_turns-drop (m ∷ ms) (suc i) = count_turns-drop ms i

count_turns-drop_mono :
    (ms : List Message) (i n : ℕ) → count_turns (drop (n + i) ms) ≤ count_turns (drop i ms)
count_turns-drop_mono ms i zero = rw zero-add (omega arith)
count_turns-drop_mono ms i (suc n) =
    rw suc-add (omega (arith, count_turns-drop_mono ms i n, count_turns-drop ms (n + i)))

-- Zero, or an index from which on there are so many turns.
abbrev pub Enough : List Message → ℤ → ℕ → Type 0
Enough ms keep_turns i = (i ≡ 0) ⊎ (keep_turns ≤ℤ pos (count_turns (drop i ms)))

scan_turns-Enough :
    (ms : List Message) (keep_turns : ℤ) (i turns : ℕ)
    → turns ≡ count_turns (drop i ms)
    → Enough ms keep_turns (scan_turns ms keep_turns i turns)
      × IsTurnStart ms (scan_turns ms keep_turns i turns)
unfolding scan_turns
scan_turns-Enough ms keep_turns zero turns h = (inl refl, inl refl)
scan_turns-Enough ms keep_turns (suc i) turns h = elim (Bool-cases (starts_turn_at ms i)) [
  | inr e ↦
      rw (e, scan_turns)
        (scan_turns-Enough ms keep_turns i turns (ground (arith, count_turns-drop ms i)))
  | inl e ↦ elim (Bool-cases (leb_ℤ keep_turns (pos (suc turns)))) [
    | inl l ↦ rw (e, l, scan_turns) (inr (ground (arith, count_turns-drop ms i)), inr e)
    | inr l ↦
        rw (e, l, scan_turns)
          (scan_turns-Enough ms keep_turns i (suc turns) (ground (arith, count_turns-drop ms i)))
  ]
]

count_turns-drop-length : (ms : List Message) → 0 ≡ count_turns (drop (length ms) ms)
unfolding count_turns
count_turns-drop-length [] = refl
count_turns-drop-length (m ∷ ms) = count_turns-drop-length ms

Enough-le :
    (ms : List Message) (keep_turns : ℤ) (b split : ℕ)
    → b ≤ split
    → Enough ms keep_turns split
    → Enough ms keep_turns b
Enough-le ms keep_turns b split h (inl z) = inl (omega arith)
Enough-le ms keep_turns b split h (inr k) =
    let same : (split - b) + b ≡ split = omega arith in
    let more : count_turns (drop split ms) ≤ count_turns (drop b ms) =
      subst (λ n. count_turns (drop n ms) ≤ count_turns (drop b ms)) same
        (count_turns-drop_mono ms b (split - b)) in
    inr (omega arith)

-- The split is at the start of a turn, or in front of everything, and no fewer turns are kept than
-- are asked for, unless everything is.
pub find_turn_boundary-Enough :
    (ms : List Message) (keep_turns : ℤ)
    → IsTurnStart ms (find_turn_boundary ms keep_turns)
      × Enough ms keep_turns (find_turn_boundary ms keep_turns)
unfolding find_turn_boundary
find_turn_boundary-Enough [] keep_turns = (inl refl, inl refl)
find_turn_boundary-Enough (m ∷ ms) keep_turns =
    let split = scan_turns (m ∷ ms) keep_turns (length (m ∷ ms)) 0 in
    let found =
      scan_turns-Enough (m ∷ ms) keep_turns (length (m ∷ ms)) 0
        (count_turns-drop-length (m ∷ ms)) in
    (
      settle-IsTurnStart (suc split) (m ∷ ms) split found.1,
      Enough-le (m ∷ ms) keep_turns _ split (settle-le (suc split) (m ∷ ms) split) found.0,
    )
