-- ===== src/Spawn/Depth.antt =====
-- How deep spawned sessions lie (server/spawn.go).
use inber.Prelude.{
  ℕ, suc, zero, ◌≤◌, String, ◌≡◌, refl, ap, inl, inr, List, Option, none, some, Bool, true, false,
  str_eq, leb, ltb, length, not, Bool-cases, arith, if◌then◌else◌, OnSome, on_some, weight,
}
use inber.Spawn.{
  Limits, Session, Registry, Phase, entered, admitted, counted, minting, reserved, building, stored,
  leaving, returned, Task, Move, admit, count, register, release, resolve, create, propose, look,
  set_pending, store_session, admit_under, children_of, session_key_in_use, judge, child_of,
  with_child, register_child, take_step, Server, Step, called, stepped, Reachable, start, next,
  counted_by, spawn_depth_of, counted_by-around,
}

-- Not yet past the guard, or past it with a parent that may have children.
abbrev fits : ℕ → Phase → ℕ → Bool
fits most entered depth = true
fits most (leaving reply key) depth = true
fits most (stored key) depth = true
fits most (returned reply) depth = true
fits most phase depth = ltb depth most

abbrev Within : ℕ → Registry → Type 0
Within most r = (key : String) → spawn_depth_of (r.sessions key) ≤ most

abbrev DepthSound : ℕ → Registry × Task → Type 0
DepthSound most (r, t) = Within most r × (fits most t.phase t.depth ≡ true)

stored_within :
    (most depth : ℕ) (same : Bool) (found : Option Session) (s : Session)
    → s.spawn_depth ≤ most
    → spawn_depth_of found ≤ most
    → spawn_depth_of (if same then some s else found) ≤ most
stored_within most depth true found s a b = a
stored_within most depth false found s a b = b

registered_depth :
    (same : Bool) (key : String) (found : Option Session)
    → spawn_depth_of (if same then with_child key found else found) ≡ spawn_depth_of found
registered_depth true key none = refl
registered_depth true key (some s) = refl
registered_depth false key found = refl

admit_under-DepthSound :
    (limits : Limits) (r : Registry) (parent : String) (depth : ℕ) (found : Option Session)
    → Within limits.max_spawn_depth r
    → OnSome (DepthSound limits.max_spawn_depth) (
        admit_under limits r (record { parent_key = parent; depth = depth; phase = entered }) found)
admit_under-DepthSound limits r parent depth none w = (w, refl)
admit_under-DepthSound limits r parent depth (some s) w =
    elim (Bool-cases (leb limits.max_spawn_depth s.spawn_depth)) [
      | inl e ↦ rw e (w, refl)
      | inr e ↦ rw e (w, ground arith)
    ]

judge-DepthSound :
    (most : ℕ) (r : Registry) (parent : String) (depth left : ℕ) (c : String) (used : Option Bool)
    → Within most r
    → ltb depth most ≡ true
    → OnSome (DepthSound most) (
        judge r
          (record { parent_key = parent; depth = depth; phase = reserved left c })
          left
          c
          used)
unfolding set_pending
judge-DepthSound most r parent depth left c none w f = (w, refl)
judge-DepthSound most r parent depth left c (some true) w f = (w, f)
judge-DepthSound most r parent depth left c (some false) w f = (w, f)

take_step-DepthSound :
    (limits : Limits) (move : Move) (phase : Phase) (r : Registry) (parent : String) (depth : ℕ)
    → DepthSound limits.max_spawn_depth
        (r, record { parent_key = parent; depth = depth; phase = phase })
    → OnSome (DepthSound limits.max_spawn_depth) (
        take_step limits move phase r
          (record { parent_key = parent; depth = depth; phase = phase }))
unfolding take_step set_pending store_session register_child
take_step-DepthSound limits admit entered r parent depth (w, f) =
    admit_under-DepthSound limits r parent depth (r.sessions parent) w
take_step-DepthSound limits count admitted r parent depth (w, f) =
    elim (Bool-cases
      (leb limits.max_children_per_agent (length (children_of (r.sessions parent))))) [
        | inl e ↦ rw e (w, refl)
        | inr e ↦ rw e (w, f)
      ]
take_step-DepthSound limits (resolve true) counted r parent depth h = h
take_step-DepthSound limits (resolve false) counted r parent depth (w, f) = (w, refl)
take_step-DepthSound limits (propose c) (minting zero) r parent depth (w, f) = (w, refl)
take_step-DepthSound limits (propose c) (minting (suc left)) r parent depth (w, f) =
    elim (Bool-cases (r.pending_session_keys c)) [ inl e ↦ rw e (w, f) | inr e ↦ rw e (w, f) ]
take_step-DepthSound limits (look recorded) (reserved left c) r parent depth (w, f) =
    judge-DepthSound limits.max_spawn_depth r parent depth left c (session_key_in_use r c recorded)
      w f
take_step-DepthSound limits (create true) (building c) r parent depth (w, f) = (
  λ key.
      stored_within limits.max_spawn_depth depth (str_eq c key) (r.sessions key)
        (child_of (record { parent_key = parent; depth = depth; phase = building c }))
        (ground arith) (w key),
  refl,
)
take_step-DepthSound limits (create false) (building c) r parent depth (w, f) = (w, refl)
take_step-DepthSound limits register (stored c) r parent depth (w, f) =
    (λ key. omega (arith, registered_depth (str_eq parent key) c (r.sessions key), w key), refl)
take_step-DepthSound limits release (leaving reply c) r parent depth (w, f) = (w, refl)
take_step-DepthSound limits move phase r parent depth h = tt

misfit : ℕ → Task → Bool
misfit most t = not (fits most t.phase t.depth)

abbrev AllWithin : ℕ → Server → Type 0
AllWithin most (r, tasks) = Within most r × (counted_by (misfit most) tasks ≡ 0)

fits_of : (b : Bool) → weight (not b) ≤ 0 → b ≡ true
fits_of true h = refl
fits_of false h = ground arith

Step-AllWithin :
    {limits : Limits} {s s' : Server}
    → Step limits s s'
    → AllWithin limits.max_spawn_depth s
    → AllWithin limits.max_spawn_depth s'
unfolding counted_by misfit
Step-AllWithin (called r tasks parent) (w, all) = (w, omega (arith, all))
Step-AllWithin {limits = limits} (stepped r r' before t t' after move e) (w, all) =
    let most = limits.max_spawn_depth in
    let now = counted_by-around (misfit most) before t after in
    let then_ = counted_by-around (misfit most) before t' after in
    let kept =
      on_some (DepthSound most) _ _
        (take_step-DepthSound limits move t.phase r t.parent_key t.depth
          (w, fits_of (fits most t.phase t.depth) (omega (arith, now, all))))
        e in
    (kept.0, omega (arith, then_, now, all, ap (λ b. weight (not b)) kept.1))

-- However the calls interleave, no live session lies deeper than the limit, if none did at the start.
pub Reachable-Within :
    (limits : Limits) (sessions : String → Option Session) (r : Registry) (tasks : List Task)
    (key : String)
    → ((k : String) → spawn_depth_of (sessions k) ≤ limits.max_spawn_depth)
    → Reachable limits sessions (r, tasks)
    → spawn_depth_of (r.sessions key) ≤ limits.max_spawn_depth
unfolding counted_by
Reachable-Within limits sessions r tasks key h reached = (all_within reached).0 key
  where
    all_within : {s : Server} → Reachable limits sessions s → AllWithin limits.max_spawn_depth s
    all_within start = (h, refl)
    all_within (next before step) = Step-AllWithin step (all_within before)
