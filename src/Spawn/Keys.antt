-- ===== src/Spawn/Keys.antt =====
-- The keys of spawned sessions (server/spawn.go, server/session_forking.go).
use inber.Prelude.{
  ℕ, ◌+◌, ◌≤◌, String, ◌≡◌, refl, sym, ap, subst, List, [], ◌∷◌, ◌++◌, Option, none, some, true,
  str_eq, eq_iff, arith, on_some, weight, weight_bound,
}
use inber.Spawn.{
  Limits, Session, Registry, Phase, building, Task, is_live, Server, Step, called, stepped,
  Reachable, start, next, counted_by, holds_key, builds, counted_by-around,
}
use inber.Spawn.Held.{live, KeySound, take_step-KeySound}

abbrev holders : String → List Task → ℕ
holders key = counted_by (λ t. holds_key key t.phase)

abbrev builders : String → List Task → ℕ
builders key = counted_by (λ t. builds key t.phase)

builds_holds :
    (key : String) (phase : Phase) → weight (builds key phase) ≤ weight (holds_key key phase)
builds_holds key (building c) = omega arith
builds_holds key phase = omega arith

builders-holders : (key : String) (tasks : List Task) → builders key tasks ≤ holders key tasks
unfolding counted_by
builders-holders key [] = omega arith
builders-holders key (t ∷ tasks) =
    omega (arith, builders-holders key tasks, builds_holds key t.phase)

abbrev AllSound : Server → Type 0
AllSound (r, tasks) =
    (key : String)
    → (holders key tasks ≡ weight (r.pending_session_keys key))
      × (builders key tasks + weight (live r key) ≤ 1)

gather : (before w after p : ℕ) → before + (w + after) ≡ p → before + after + w ≡ p
gather before w after p h = omega arith

scatter : (before w after p : ℕ) → before + after + w ≡ p → before + (w + after) ≡ p
scatter before w after p h = omega arith

Step-AllSound : {limits : Limits} {s s' : Server} → Step limits s s' → AllSound s → AllSound s'
unfolding counted_by
Step-AllSound (called r tasks parent) sound =
    λ key. (omega (arith, (sound key).0), omega (arith, (sound key).1))
Step-AllSound (stepped r r' before t t' after move e) sound = λ key.
    let h = counted_by-around (λ u. holds_key key u.phase) before t after in
    let b = counted_by-around (λ u. builds key u.phase) before t after in
    let h' = counted_by-around (λ u. holds_key key u.phase) before t' after in
    let b' = counted_by-around (λ u. builds key u.phase) before t' after in
    let kept =
      on_some
        (KeySound key (holders key before + holders key after)
          (builders key before + builders key after))
        _ _
        (take_step-KeySound _ move t.phase key _ _ r t.parent_key t.depth
          (omega (arith, builders-holders key before, builders-holders key after))
          (omega (arith, h, (sound key).0), omega (arith, b, (sound key).1)))
        e in
    (omega (arith, h', kept.0), omega (arith, b', kept.1))

Reachable-AllSound :
    {limits : Limits} {sessions : String → Option Session} {s : Server}
    → Reachable limits sessions s
    → AllSound s
unfolding counted_by
Reachable-AllSound {sessions = sessions} start =
    λ key. (refl, omega (arith, weight_bound (is_live (sessions key))))
Reachable-AllSound (next r step) = Step-AllSound step (Reachable-AllSound r)

str_eq_self : (key : String) → str_eq key key ≡ true
str_eq_self key = (eq_iff key key).1 refl

not_live : (found : Option Session) → weight (is_live found) ≤ 0 → found ≡ none
not_live none h = refl
not_live (some s) h = ground arith

-- However the calls interleave, a key is reserved as long as one call holds it, never by two calls and not
-- after the last of them came back; and a call that is about to store its child finds no session under the
-- key, whatever the other calls stored since it looked.
pub Reachable-Reserved :
    (limits : Limits) (sessions : String → Option Session) (r : Registry) (tasks : List Task)
    (key : String)
    → Reachable limits sessions (r, tasks)
    → (counted_by (λ t. holds_key key t.phase) tasks ≡ weight (r.pending_session_keys key))
      × ((before : List Task) (t : Task) (after : List Task)
          → tasks ≡ before ++ t ∷ after
          → t.phase ≡ building key
          → r.sessions key ≡ none)
Reachable-Reserved limits sessions r tasks key reached = (
  (Reachable-AllSound reached key).0,
  λ before t after e building_now.
      let b = counted_by-around (λ u. builds key u.phase) before t after in
      let one =
        subst (λ phase. weight (builds key phase) ≡ 1) (sym building_now)
          (ap weight (str_eq_self key)) in
      not_live (r.sessions key)
        (omega (arith, ap (builders key) e, b, one, (Reachable-AllSound reached key).1)),
)
