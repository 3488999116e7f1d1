-- ===== src/Turns/Pairs.antt =====
-- The split that `findTurnBoundary` (conversation/message_utils.go) chooses keeps a call and its result together.
use inber.Prelude.{
  ℕ, zero, suc, ◌≤◌, ◌<◌, String, ◌≡◌, sym, subst, inl, inr, List, [], ◌∷◌, ◌++◌, some, Bool, true,
  false, take, drop, get_elem?, contains, contains-append, contains_self, ltb, arith, Bool-cases,
  if◌then◌else◌,
}
use inber.Prelude.Int.{ℤ}
use inber.Message.{
  user, assistant, ToolUse, ToolResult, Block, text, tool_use, tool_result, thinking,
  redacted_thinking, other, Message, call_id, call_ids,
}
use inber.Repair.{calls, is_user}
use inber.Turns.{
  collect_tool_use_ids, removed_answers, find_orphaned_tool_results, find_turn_boundary,
}
use inber.Turns.Boundary.{find_turn_boundary-orphans}

-- A message of the model with a tool call of this id among its blocks.
abbrev pub Calls : String → Message → Type 0
Calls id m =
    (m.role ≡ assistant)
    × ((k : ℕ) × (u : ToolUse) × (get_elem? m.content k ≡ some (tool_use u)) × (u.id ≡ id))

-- A message of the user with a result for the call of this id among its blocks.
abbrev pub Answers : String → Message → Type 0
Answers id m =
    (m.role ≡ user)
    × ((k : ℕ) × (r : ToolResult) × (get_elem? m.content k ≡ some (tool_result r))
        × (r.tool_use_id ≡ id))

some_block : {a b : Block} → some a ≡ some b → a ≡ b
some_block e = cc e

contains_same : (x s : String) (xs : List String) → x ≡ s → contains (x ∷ xs) s ≡ true
contains_same x s xs e = subst (λ y. contains (y ∷ xs) s ≡ true) (sym e) (contains_self s xs)

contains_later :
    (x s : String) (xs : List String) → contains xs s ≡ true → contains (x ∷ xs) s ≡ true
contains_later x s xs h = ground (arith, h)

contains_left :
    (xs ys : List String) (s : String) → contains xs s ≡ true → contains (xs ++ ys) s ≡ true
contains_left xs ys s h = ground (arith, contains-append xs ys s)

contains_right :
    (xs ys : List String) (s : String) → contains ys s ≡ true → contains (xs ++ ys) s ≡ true
contains_right xs ys s h = ground (arith, contains-append xs ys s)

contains-call_ids :
    (bs : List Block) (k : ℕ) (u : ToolUse)
    → get_elem? bs k ≡ some (tool_use u)
    → contains (call_ids bs) u.id ≡ true
contains-call_ids [] k u e = cc e
contains-call_ids (b ∷ bs) zero u e =
    subst (λ a. contains (call_ids (a ∷ bs)) u.id ≡ true) (sym (some_block e))
      (contains_self u.id (call_ids bs))
contains-call_ids (b ∷ bs) (suc k) u e =
    contains_right (call_id b) (call_ids bs) u.id (contains-call_ids bs k u e)

contains-calls : (id : String) (m : Message) → Calls id m → contains (calls m) id ≡ true
contains-calls id m (spoken, (k, u, e, same)) =
    subst (λ r. contains (calls (record m { role = r })) id ≡ true) (sym spoken)
      (subst (λ s. contains (call_ids m.content) s ≡ true) same (contains-call_ids m.content k u e))

contains-collect :
    (ms : List Message) (s i : ℕ) (m : Message) (id : String)
    → get_elem? ms i ≡ some m
    → i < s
    → Calls id m
    → contains (collect_tool_use_ids (take s ms)) id ≡ true
unfolding collect_tool_use_ids
contains-collect [] s i m id e h c = cc e
contains-collect (n ∷ ms) zero i m id e h c = ground (arith, h)
contains-collect (n ∷ ms) (suc s) zero m id e h c =
    contains_left (calls n) (collect_tool_use_ids (take s ms)) id
      (contains-calls id n (subst (Calls id) (sym (some_message e)) c))
  where
    some_message : {a b : Message} → some a ≡ some b → a ≡ b
    some_message e = cc e
contains-collect (n ∷ ms) (suc s) (suc i) m id e h c =
    contains_right (calls n) (collect_tool_use_ids (take s ms)) id
      (contains-collect ms s i m id e (omega arith) c)

contains-removed_answers :
    (removed : List String) (bs : List Block) (k : ℕ) (r : ToolResult)
    → get_elem? bs k ≡ some (tool_result r)
    → contains removed r.tool_use_id ≡ true
    → contains (removed_answers removed bs) r.tool_use_id ≡ true
contains-removed_answers removed [] k r e h = cc e
contains-removed_answers removed (b ∷ bs) zero r e h =
    subst (λ a. contains (removed_answers removed (a ∷ bs)) r.tool_use_id ≡ true)
      (sym (some_block e)) (rw h (contains_self r.tool_use_id (removed_answers removed bs)))
contains-removed_answers removed (b ∷ bs) (suc k) r e h =
    behind b (contains-removed_answers removed bs k r e h)
  where
    found :
        (known : Bool) (q : String) (rest : List String)
        → contains rest r.tool_use_id ≡ true
        → contains (if known then q ∷ rest else rest) r.tool_use_id ≡ true
    found true q rest g = contains_later q r.tool_use_id rest g
    found false q rest g = g

    behind :
        (a : Block)
        → contains (removed_answers removed bs) r.tool_use_id ≡ true
        → contains (removed_answers removed (a ∷ bs)) r.tool_use_id ≡ true
    behind (tool_result q) g =
        found (contains removed q.tool_use_id) q.tool_use_id (removed_answers removed bs) g
    behind (text s) g = g
    behind (tool_use u) g = g
    behind (thinking s) g = g
    behind (redacted_thinking s) g = g
    behind (other s) g = g

contains-answered :
    (removed : List String) (m : Message) (id : String) (rest : List String)
    → Answers id m
    → contains removed id ≡ true
    → contains ((if is_user m then removed_answers removed m.content else []) ++ rest) id ≡ true
contains-answered removed m id rest (spoken, (k, r, e, same)) h =
    subst
      (λ role.
        contains
          ((if is_user (record m { role = role }) then removed_answers removed m.content else [])
            ++ rest)
          id
        ≡ true)
      (sym spoken)
      (contains_left (removed_answers removed m.content) rest id (
        subst (λ s. contains (removed_answers removed m.content) s ≡ true) same
          (contains-removed_answers removed m.content k r e
            (subst (λ s. contains removed s ≡ true) (sym same) h))))

contains-orphaned :
    (ms : List Message) (s j : ℕ) (removed : List String) (n : Message) (id : String)
    → get_elem? ms j ≡ some n
    → s ≤ j
    → Answers id n
    → contains removed id ≡ true
    → contains (find_orphaned_tool_results (drop s ms) removed) id ≡ true
unfolding find_orphaned_tool_results
contains-orphaned [] s j removed n id e h a g = cc e
contains-orphaned (m ∷ ms) zero zero removed n id e h a g =
    contains-answered removed m id (find_orphaned_tool_results ms removed)
      (subst (Answers id) (sym (some_message e)) a) g
  where
    some_message : {a b : Message} → some a ≡ some b → a ≡ b
    some_message e = cc e
contains-orphaned (m ∷ ms) zero (suc j) removed n id e h a g =
    contains_right (if is_user m then removed_answers removed m.content else [])
      (find_orphaned_tool_results ms removed) id
      (contains-orphaned ms zero j removed n id e (omega arith) a g)
contains-orphaned (m ∷ ms) (suc s) zero removed n id e h a g = ground (arith, h)
contains-orphaned (m ∷ ms) (suc s) (suc j) removed n id e h a g =
    contains-orphaned ms s j removed n id e (omega arith) a g

-- A result that answers a tool call in front of the split is in front of the split as well.
pub find_turn_boundary-pairs :
    (ms : List Message) (keep_turns : ℤ) (i j : ℕ) (m n : Message) (id : String)
    → get_elem? ms i ≡ some m
    → get_elem? ms j ≡ some n
    → Calls id m
    → Answers id n
    → i < find_turn_boundary ms keep_turns
    → j < find_turn_boundary ms keep_turns
find_turn_boundary-pairs ms keep_turns i j m n id at_i at_j c a h =
    elim (Bool-cases (ltb j (find_turn_boundary ms keep_turns))) [
      | inl in_front ↦ ground arith
      | inr behind ↦
          let split = find_turn_boundary ms keep_turns in
          let orphaned =
            contains-orphaned ms split j (collect_tool_use_ids (take split ms)) n id at_j
              (ground arith) a (contains-collect ms split i m id at_i h c) in
          cc (
            subst (λ ids. contains ids id ≡ true) (find_turn_boundary-orphans ms keep_turns)
              orphaned)
    ]
