-- ===== src/Spawn/Held.antt =====
-- What one step of a call does to a key (server/spawn.go, server/session_forking.go).
use inber.Prelude.{
  ℕ, suc, zero, ◌+◌, ◌≤◌, String, ◌≡◌, refl, sym, subst, inl, inr, Option, none, some, Bool, true,
  false, str_eq, eq_iff, leb, length, Bool-cases, arith, if◌then◌else◌, OnSome, weight,
}
use inber.Spawn.{
  Limits, Session, Registry, Phase, entered, admitted, counted, minting, reserved, building, stored,
  leaving, Task, Move, admit, count, register, release, resolve, create, propose, look, Moved,
  set_pending, store_session, is_live, admit_under, children_of, session_key_in_use, judge,
  child_of, with_child, register_child, take_step, holds_key, builds,
}

abbrev pub live : Registry → String → Bool
live r key = is_live (r.sessions key)

-- A task among others that hold the key `held` times and build under it `built` times.
abbrev pub KeySound : String → ℕ → ℕ → Registry × Task → Type 0
KeySound key held built (r, t) =
    (held + weight (holds_key key t.phase) ≡ weight (r.pending_session_keys key))
    × (built + weight (builds key t.phase) + weight (live r key) ≤ 1)

module _ (key : String) (held built : ℕ) (fewer : built ≤ held) where
  -- What a step may change, for a key that is the task's own (`same`) or another.
  on_reserve :
      (same pending known : Bool)
      → (same ≡ true → pending ≡ false)
      → (held + 0 ≡ weight pending) × (built + 0 + weight known ≤ 1)
      → (held + weight same ≡ weight (if same then true else pending))
        × (built + 0 + weight known ≤ 1)
  on_reserve true true known h s = cc (h refl)
  on_reserve true false known h (a, b) = (omega arith, b)
  on_reserve false pending known h s = s

  on_give_back :
      (same pending known : Bool)
      → (held + weight same ≡ weight pending) × (built + 0 + weight known ≤ 1)
      → (held + 0 ≡ weight (if same then false else pending)) × (built + 0 + weight known ≤ 1)
  on_give_back true true known (a, b) = (omega arith, b)
  on_give_back true false known (a, b) = (omega arith, b)
  on_give_back false pending known s = s

  on_judge :
      (same pending known : Bool)
      → (same ≡ true → known ≡ false)
      → (held + weight same ≡ weight pending) × (built + 0 + weight known ≤ 1)
      → (held + weight same ≡ weight pending) × (built + weight same + weight known ≤ 1)
  on_judge true true true h (a, b) = cc (h refl)
  on_judge true true false h (a, b) = (a, omega arith)
  on_judge true false known h (a, b) = (a, omega arith)
  on_judge false pending known h s = s

  on_store :
      (same : Bool) (pending : Bool) (found : Option Session) (s : Session)
      → (held + weight same ≡ weight pending) × (built + weight same + weight (is_live found) ≤ 1)
      → (held + weight same ≡ weight pending)
        × (built + 0 + weight (is_live (if same then some s else found)) ≤ 1)
  on_store true pending found s (a, b) = (a, omega arith)
  on_store false pending found s h = h

  on_fail :
      (same pending known : Bool)
      → (held + weight same ≡ weight pending) × (built + weight same + weight known ≤ 1)
      → (held + weight same ≡ weight pending) × (built + 0 + weight known ≤ 1)
  on_fail same pending known (a, b) = (a, omega arith)

live-register :
    (parent child key : String) (r : Registry)
    → live (register_child parent child r) key ≡ live r key
unfolding register_child
live-register parent child key r = elim (Bool-cases (str_eq parent key)) [
  | inl e ↦ rw e (kept (r.sessions key))
  | inr e ↦ rw e refl
]
  where
    kept : (found : Option Session) → is_live (with_child child found) ≡ is_live found
    kept none = refl
    kept (some s) = refl

module _ (key : String) (held built : ℕ) (fewer : built ≤ held) where
  abbrev Kept : Moved → Type 0
  Kept = OnSome (KeySound key held built)

  admit_under-Kept :
      (limits : Limits) (r : Registry) (parent : String) (depth : ℕ) (found : Option Session)
      → KeySound key held built (r, record { parent_key = parent; depth = depth; phase = entered })
      → Kept (
          admit_under limits r
            (record { parent_key = parent; depth = depth; phase = entered })
            found)
  admit_under-Kept limits r parent depth none h = h
  admit_under-Kept limits r parent depth (some s) h =
      elim (Bool-cases (leb limits.max_spawn_depth s.spawn_depth)) [
        | inl e ↦ rw e h
        | inr e ↦ rw e h
      ]

  judge-Kept :
      (r : Registry) (parent : String) (depth left : ℕ) (candidate : String) (used : Option Bool)
      → (used ≡ some false → live r candidate ≡ false)
      → KeySound key held built
          (r, record { parent_key = parent; depth = depth; phase = reserved left candidate })
      → Kept (
          judge r
            (record { parent_key = parent; depth = depth; phase = reserved left candidate })
            left
            candidate
            used)
  unfolding set_pending
  judge-Kept r parent depth left candidate none h s =
      on_give_back key held built fewer (str_eq candidate key) (r.pending_session_keys key)
        (live r key) s
  judge-Kept r parent depth left candidate (some true) h s =
      on_give_back key held built fewer (str_eq candidate key) (r.pending_session_keys key)
        (live r key) s
  judge-Kept r parent depth left candidate (some false) h s =
      on_judge key held built fewer (str_eq candidate key) (r.pending_session_keys key) (live r key)
        (λ same. subst (λ k. live r k ≡ false) ((eq_iff candidate key).0 same) (h refl)) s

pub session_key_unused :
    (r : Registry) (key : String) (recorded : Option Bool)
    → session_key_in_use r key recorded ≡ some false
    → live r key ≡ false
session_key_unused r key recorded h = elim (Bool-cases (live r key)) [
  | inl e ↦ cc (subst (λ b. (if b then some true else recorded) ≡ some false) e h)
  | inr e ↦ e
]

-- A step leaves each key with at most one holder and, where a session is about to be stored, not taken.
pub take_step-KeySound :
    (limits : Limits) (move : Move) (phase : Phase) (key : String) (held built : ℕ) (r : Registry)
    (parent : String) (depth : ℕ)
    → built ≤ held
    → KeySound key held built (r, record { parent_key = parent; depth = depth; phase = phase })
    → OnSome (KeySound key held built) (
        take_step limits move phase r
          (record { parent_key = parent; depth = depth; phase = phase }))
unfolding take_step set_pending store_session register_child
take_step-KeySound limits admit entered key held built r parent depth f h =
    admit_under-Kept key held built f limits r parent depth (r.sessions parent) h
take_step-KeySound limits count admitted key held built r parent depth f h =
    elim (Bool-cases
      (leb limits.max_children_per_agent (length (children_of (r.sessions parent))))) [
        | inl e ↦ rw e h
        | inr e ↦ rw e h
      ]
take_step-KeySound limits (resolve true) counted key held built r parent depth f h = h
take_step-KeySound limits (resolve false) counted key held built r parent depth f h = h
take_step-KeySound limits (propose c) (minting zero) key held built r parent depth f h = h
take_step-KeySound limits (propose c) (minting (suc left)) key held built r parent depth f h =
    elim (Bool-cases (r.pending_session_keys c)) [
      | inl e ↦ rw e h
      | inr e ↦ rw e (
          on_reserve key held built f (str_eq c key) (r.pending_session_keys key) (live r key)
            (λ same. subst (λ k. r.pending_session_keys k ≡ false) ((eq_iff c key).0 same) e) h)
    ]
take_step-KeySound limits (look recorded) (reserved left c) key held built r parent depth f h =
    judge-Kept key held built f r parent depth left c (session_key_in_use r c recorded)
      (session_key_unused r c recorded) h
take_step-KeySound limits (create true) (building c) key held built r parent depth f h =
    on_store key held built f (str_eq c key) (r.pending_session_keys key) (r.sessions key)
      (child_of (record { parent_key = parent; depth = depth; phase = building c })) h
take_step-KeySound limits (create false) (building c) key held built r parent depth f h =
    on_fail key held built f (str_eq c key) (r.pending_session_keys key) (live r key) h
take_step-KeySound limits register (stored c) key held built r parent depth f (a, b) =
    (a, subst (λ l. built + 0 + weight l ≤ 1) (sym (live-register parent c key r)) b)
take_step-KeySound limits release (leaving reply c) key held built r parent depth f h =
    on_give_back key held built f (str_eq c key) (r.pending_session_keys key) (live r key) h
take_step-KeySound limits move phase key held built r parent depth f h = tt
