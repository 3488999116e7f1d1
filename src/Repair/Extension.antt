-- ===== src/Repair/Extension.antt =====
-- What the repair of tool calls in conversation/repair.go adds.
use inber.Prelude.{String, ◌≡◌, List, [], ◌∷◌, ◌++◌, map, arith, Bool-cases, inl, inr, without}
use inber.Message.{Message, answer_ids, user_message}
use inber.Repair.{interrupted_result, is_assistant, is_user, calls, fill}

-- `out` is `ms` with interrupted results added: at the head of a message, or as a user message.
pub data Extends : List Message → List Message → Type 0 where
  done : Extends [] []
  kept :
      {m n : Message} {ms out : List Message} (ids : List String)
      → n ≡ record m { content = map interrupted_result ids ++ m.content }
      → Extends ms out
      → Extends (m ∷ ms) (n ∷ out)
  added :
      {n : Message} {ms out : List Message} (ids : List String)
      → n ≡ user_message (map interrupted_result ids)
      → Extends ms out
      → Extends ms (n ∷ out)

pub fill_lem :
    (m next : Message)
    → (ids : List String) × ((fill m next).0
        ≡ record next { content = map interrupted_result ids ++ next.content })
unfolding fill
fill_lem m next = elim (Bool-cases (is_assistant m)) [
  | inr a ↦ ([], ground arith)
  | inl a ↦ elim (Bool-cases (is_user next)) [
    | inr u ↦ ([], ground arith)
    | inl u ↦ (without (answer_ids next.content) (calls m), ground arith)
  ]
]
