-- ===== src/Spawn.antt =====
-- server/spawn.go, with the minting and the reservation of keys of server/session_forking.go: sessions that
-- start other sessions. A call of `Spawn` is a task, what it does between two points where another call can
-- come in is one step, and a run of the server is an interleaving of the steps of its tasks. Where the code
-- asks something that is not the registry's, the answer is part of the move.
use inber.Prelude.{
  ℕ, suc, ◌+◌, ◌≤◌, String, ◌≡◌, List, [], ◌∷◌, ◌++◌, Option, none, some, Bool, true, false, ◌&&◌,
  ◌||◌, not, str_eq, ltb, leb, length, zero, arith, if◌then◌else◌, weight,
}
pub mod Held
pub mod Keys
pub mod Depth
pub mod Ending
pub mod Alone
pub mod Growth
pub mod Stream

pub record Limits : Type 0 where
  pub max_spawn_depth : ℕ
  pub max_children_per_agent : ℕ

pub record Session : Type 0 where
  pub spawn_depth : ℕ
  pub parent_key : String
  pub children : List String

-- The live sessions, and the keys that are handed out for sessions that are not there yet.
pub record Registry : Type 0 where
  pub sessions : String → Option Session
  pub pending_session_keys : String → Bool

pub data Refusal : Type 0 where
  parent_not_found max_depth_reached max_children_reached unknown_agent : Refusal
  key_unreadable keys_all_taken child_not_created : Refusal

pub data SpawnReply : Type 0 where
  accepted : String → SpawnReply
  declined : Refusal → SpawnReply

-- Where a call stands. `minting` and `reserved` keep how many proposals are left.
pub data Phase : Type 0 where
  entered admitted counted : Phase
  minting : ℕ → Phase
  reserved : ℕ → String → Phase
  building stored : String → Phase
  leaving : SpawnReply → String → Phase
  returned : SpawnReply → Phase

-- A call: the parent it names, the depth of that parent, which it reads when it is admitted and nothing
-- writes afterwards, and where it stands.
pub record Task : Type 0 where
  pub parent_key : String
  pub depth : ℕ
  pub phase : Phase

abbrev pub session_key_mint_attempts : ℕ
session_key_mint_attempts = 100

-- `resolve` has whether the agent is configured, `propose` the key the clock gives, `look` whether the store
-- or the disk knows the key (`none` if one of them cannot be read), and `create` whether the workspace and
-- the session could be made.
pub data Move : Type 0 where
  admit count register release : Move
  resolve create : Bool → Move
  propose : String → Move
  look : Option Bool → Move

abbrev pub Moved : Type 0
Moved = Option (Registry × Task)

abbrev pub moved : Registry → Task → Phase → Moved
moved r t phase = some (r, record t { phase = phase })

unfoldable pub set_pending : String → Bool → Registry → Registry
set_pending key value r = record r {
  pending_session_keys = λ other. if str_eq key other then value else r.pending_session_keys other;
}

-- `sessions.Store`, which replaces what is there.
unfoldable pub store_session : String → Session → Registry → Registry
store_session key s r = record r {
  sessions = λ other. if str_eq key other then some s else r.sessions other;
}

abbrev pub is_live : Option Session → Bool
is_live none = false
is_live (some s) = true

abbrev pub spawn_depth_of : Option Session → ℕ
spawn_depth_of none = 0
spawn_depth_of (some s) = s.spawn_depth

abbrev pub admit_under : Limits → Registry → Task → Option Session → Moved
admit_under limits r t none = moved r t (returned (declined parent_not_found))
admit_under limits r t (some parent) =
    if leb limits.max_spawn_depth parent.spawn_depth
    then moved r t (returned (declined max_depth_reached))
    else some (r, record t { depth = parent.spawn_depth; phase = admitted })

abbrev pub children_of : Option Session → List String
children_of none = []
children_of (some s) = s.children

abbrev pub count_children : Limits → Registry → Task → Moved
count_children limits r t =
    if leb limits.max_children_per_agent (length (children_of (r.sessions t.parent_key)))
    then moved r t (returned (declined max_children_reached))
    else moved r t counted

-- `LoadOrStore` on the reservations.
abbrev pub reserve : Registry → Task → ℕ → String → Moved
reserve r t left candidate =
    if r.pending_session_keys candidate
    then moved r t (minting left)
    else moved (set_pending candidate true r) t (reserved left candidate)

-- `sessionKeyInUse`: a live session, or else what the store and the disk say.
abbrev pub session_key_in_use : Registry → String → Option Bool → Option Bool
session_key_in_use r key recorded = if is_live (r.sessions key) then some true else recorded

abbrev pub judge : Registry → Task → ℕ → String → Option Bool → Moved
judge r t left candidate none =
    moved (set_pending candidate false r) t (returned (declined key_unreadable))
judge r t left candidate (some true) = moved (set_pending candidate false r) t (minting left)
judge r t left candidate (some false) = moved r t (building candidate)

-- The child, forked or not, is one level below its parent.
abbrev pub child_of : Task → Session
child_of t = record { spawn_depth = suc t.depth; parent_key = t.parent_key; children = [] }

abbrev pub with_child : String → Option Session → Option Session
with_child key none = none
with_child key (some s) = some (record s { children = s.children ++ key ∷ [] })

unfoldable pub register_child : String → String → Registry → Registry
register_child parent key r = record r {
  sessions =
      λ other. if str_eq parent other then with_child key (r.sessions other) else r.sessions other;
}

-- One step of a call, `none` if it is elsewhere.
unfoldable pub take_step : Limits → Move → Phase → Registry → Task → Moved
take_step limits admit entered r t = admit_under limits r t (r.sessions t.parent_key)
take_step limits count admitted r t = count_children limits r t
take_step limits (resolve true) counted r t = moved r t (minting session_key_mint_attempts)
take_step limits (resolve false) counted r t = moved r t (returned (declined unknown_agent))
take_step limits (propose candidate) (minting zero) r t =
    moved r t (returned (declined keys_all_taken))
take_step limits (propose candidate) (minting (suc left)) r t = reserve r t left candidate
take_step limits (look recorded) (reserved left candidate) r t =
    judge r t left candidate (session_key_in_use r candidate recorded)
take_step limits (create true) (building key) r t =
    moved (store_session key (child_of t) r) t (stored key)
take_step limits (create false) (building key) r t =
    moved r t (leaving (declined child_not_created) key)
take_step limits register (stored key) r t =
    moved (register_child t.parent_key key r) t (leaving (accepted key) key)
take_step limits release (leaving reply key) r t =
    moved (set_pending key false r) t (returned reply)
take_step limits move phase r t = none

abbrev pub step_task : Limits → Move → Registry → Task → Moved
step_task limits move r t = take_step limits move t.phase r t

abbrev pub spawn : String → Task
spawn parent = record { parent_key = parent; depth = 0; phase = entered }

abbrev pub Server : Type 0
Server = Registry × List Task

-- A call comes in, or one of the calls takes a step.
pub data Step (limits : Limits) : Server → Server → Type 0 where
  called :
      (r : Registry) (tasks : List Task) (parent : String)
      → Step limits (r, tasks) (r, spawn parent ∷ tasks)
  stepped :
      (r r' : Registry) (before : List Task) (t t' : Task) (after : List Task) (move : Move)
      → step_task limits move r t ≡ some (r', t')
      → Step limits (r, before ++ t ∷ after) (r', before ++ t' ∷ after)

abbrev pub new_registry : (String → Option Session) → Registry
new_registry sessions = record { sessions = sessions; pending_session_keys = λ key. false }

-- From a server with these sessions and no call of `Spawn` under way.
pub data Reachable (limits : Limits) (sessions : String → Option Session) : Server → Type 0 where
  start : Reachable limits sessions (new_registry sessions, [])
  next :
      {s s' : Server}
      → Reachable limits sessions s
      → Step limits s s'
      → Reachable limits sessions s'

-- The calls that a test holds of.
unfoldable pub counted_by : (Task → Bool) → List Task → ℕ
counted_by test [] = 0
counted_by test (t ∷ ts) = weight (test t) + counted_by test ts

abbrev pub holds_key : String → Phase → Bool
holds_key key (reserved left candidate) = str_eq candidate key
holds_key key (building candidate) = str_eq candidate key
holds_key key (stored candidate) = str_eq candidate key
holds_key key (leaving reply candidate) = str_eq candidate key
holds_key key phase = false

-- About to store a session under the key.
abbrev pub builds : String → Phase → Bool
builds key (building candidate) = str_eq candidate key
builds key phase = false

pub counted_by-append :
    (test : Task → Bool) (xs ys : List Task)
    → counted_by test (xs ++ ys) ≡ counted_by test xs + counted_by test ys
unfolding counted_by
counted_by-append test [] ys = omega arith
counted_by-append test (x ∷ xs) ys = omega (arith, counted_by-append test xs ys)

pub counted_by-around :
    (test : Task → Bool) (before : List Task) (t : Task) (after : List Task)
    → counted_by test (before ++ t ∷ after)
      ≡ counted_by test before + (weight (test t) + counted_by test after)
unfolding counted_by
counted_by-around test before t after = counted_by-append test before (t ∷ after)
