-- ===== src/Samples/Spawns.antt =====
-- Calls of `Spawn` on one parent.
use inber.Prelude.{
  ◌≤◌, String, ◌≡◌, refl, List, [], ◌∷◌, ◌++◌, Option, none, some, Bool, true, false, str_eq,
  length, ◌⊎◌, if◌then◌else◌, arith, weight,
}
use inber.Spawn.{
  Limits, Session, Registry, Phase, entered, admitted, counted, minting, reserved, building, stored,
  leaving, returned, accepted, Task, Move, admit, count, register, release, resolve, create,
  propose, look, take_step, step_task, set_pending, store_session, register_child, Step, called,
  stepped, Reachable, start, next, new_registry, spawn, counted_by, holds_key, spawn_depth_of,
  children_of, is_live,
}
use inber.Spawn.Keys.{Reachable-Reserved}
use inber.Spawn.Depth.{Reachable-Within}
use inber.Spawn.Ending.{still, step, HasReturned, Moves, Course-Ends}
use inber.Spawn.Alone.{Answers, fork_and_spawn}
use inber.Spawn.Growth.{fork_and_spawn-Fills}
use inber.Spawn.Stream.{Origin, StreamEvent, travel, envelope, travel-origin}

abbrev limits : Limits
limits = record { max_spawn_depth = 2; max_children_per_agent = 1 }

abbrev root : Session
root = record { spawn_depth = 0; parent_key = ""; children = [] }

abbrev at_start : String → Option Session
at_start key = if str_eq "p" key then some root else none

abbrev r0 : Registry
r0 = new_registry at_start

abbrev at_phase : Phase → Task
at_phase phase = record { parent_key = "p"; depth = 0; phase = phase }

-- One call to the point where it is about to store its child.
abbrev r1 : Registry
r1 = set_pending "p:sub:1" true r0

one_step :
    {r r' : Registry} {t t' : Task} {others : List Task} (move : Move)
    → step_task limits move r t ≡ some (r', t')
    → Reachable limits at_start (r, t ∷ others)
    → Reachable limits at_start (r', t' ∷ others)
one_step move e reached = next reached (stepped _ _ [] _ _ _ move e)

at_building : Reachable limits at_start (r1, at_phase (building "p:sub:1") ∷ [])
unfolding take_step set_pending
at_building = one_step (look (some false)) refl (
    one_step (propose "p:sub:1") refl (
      one_step (resolve true) refl
        (one_step count refl (one_step admit refl (next start (called r0 [] "p"))))))

Reachable-Reserved_example :
    (counted_by (λ t. holds_key "p:sub:1" t.phase) (at_phase (building "p:sub:1") ∷ [])
      ≡ weight true)
    × ((before : List Task) (t : Task) (after : List Task)
        → at_phase (building "p:sub:1") ∷ [] ≡ before ++ t ∷ after
        → t.phase ≡ building "p:sub:1"
        → r1.sessions "p:sub:1" ≡ none)
unfolding set_pending
Reachable-Reserved_example =
    Reachable-Reserved limits at_start r1 (at_phase (building "p:sub:1") ∷ []) "p:sub:1" at_building

shallow : (b : Bool) → spawn_depth_of (if b then some root else none) ≤ 2
shallow true = omega arith
shallow false = omega arith

-- The child is stored one level below its parent.
abbrev r2 : Registry
r2 = store_session "p:sub:1" (record { spawn_depth = 1; parent_key = "p"; children = [] }) r1

at_stored : Reachable limits at_start (r2, at_phase (stored "p:sub:1") ∷ [])
unfolding take_step
at_stored = one_step (create true) refl at_building

Reachable-Within_example : spawn_depth_of (r2.sessions "p:sub:1") ≤ 2
Reachable-Within_example =
    Reachable-Within limits at_start r2 (at_phase (stored "p:sub:1") ∷ []) "p:sub:1"
      (λ k. shallow (str_eq "p" k)) at_stored

Course-Ends_example :
    (1 ≤ 206) × (HasReturned (at_phase admitted).phase ⊎ Moves limits r0 (at_phase admitted))
unfolding take_step
Course-Ends_example =
    Course-Ends limits "p" 1 (at_phase admitted) r0
      (step r0 r0 admit refl (still (at_phase admitted)))

abbrev willing : String → Answers
willing key = record {
  is_configured = true;
  proposal = λ left. key;
  recorded = λ candidate. some false;
  is_created = true;
}

abbrev two_tasks : List Answers
two_tasks = willing "p:sub:1" ∷ willing "p:sub:2" ∷ []

fork_and_spawn-Fills_example :
    let (responses, after) = fork_and_spawn limits "p" two_tasks r0 in
    (children_of (after.sessions "p") ≡ [] ++ responses)
    × (length (children_of (after.sessions "p")) ≤ 1)
fork_and_spawn-Fills_example = fork_and_spawn-Fills limits "p" two_tasks r0 (omega arith)

abbrev thought : StreamEvent
thought = record {
  kind = "thinking";
  text = "hm";
  tool = "";
  tool_id = "";
  turn = 3;
  message_id = "m";
  origin = none;
}

abbrev grandchild : Origin
grandchild = record {
  agent = "b";
  session_key = "p:sub:1:sub:2";
  parent_key = "p:sub:1";
  depth = 2;
}

abbrev child : Origin
child = record { agent = "a"; session_key = "p:sub:1"; parent_key = "p"; depth = 1 }

travel-origin_example :
    travel ((grandchild, true) ∷ (child, true) ∷ []) (some thought)
    ≡ some (envelope grandchild thought)
unfolding inber.Spawn.Stream.all_streaming inber.Spawn.Stream.is_progress
travel-origin_example = travel-origin grandchild true ((child, true) ∷ []) thought

-- Two calls that count before either adds its child: one parent has two children where one is allowed.
abbrev r3 : Registry
r3 = set_pending "p:sub:2" true (set_pending "p:sub:1" false (register_child "p" "p:sub:1" r2))

abbrev r4 : Registry
r4 =
    register_child "p" "p:sub:2"
      (store_session "p:sub:2" (record { spawn_depth = 1; parent_key = "p"; children = [] }) r3)

both_counted : Reachable limits at_start (r0, at_phase counted ∷ at_phase counted ∷ [])
unfolding take_step
both_counted = one_step count refl (
    one_step admit refl (
      next (one_step count refl (one_step admit refl (next start (called r0 [] "p"))))
        (called r0 (at_phase counted ∷ []) "p")))

crowded : children_of (r4.sessions "p") ≡ "p:sub:1" ∷ "p:sub:2" ∷ []
unfolding set_pending store_session register_child
crowded = refl
