-- ===== src/Message.antt =====
-- The conversation that inber sends to the model: the parts of the Anthropic SDK's message types
-- that the code reads and writes (github.com/anthropics/anthropic-sdk-go: MessageParam,
-- ContentBlockParamUnion, ToolUseBlockParam, ToolResultBlockParam). The union's alternatives
-- that no code of the repository looks into are `other`; a union value has one alternative set.
use inber.Prelude.{◌≡◌, refl, ap, String, List, [], ◌∷◌, ◌++◌, Option, Bool, true, false}

pub data Role : Type 0 where
  user assistant : Role

pub record ToolUse : Type 0 where
  pub id : String
  pub name : String
  pub input : String  -- the raw JSON of the arguments

-- One entry of a tool result's content.
pub data ResultPart : Type 0 where
  result_text : String → ResultPart
  result_image : String → ResultPart

pub record ToolResult : Type 0 where
  pub tool_use_id : String
  pub is_error : Option Bool
  pub content : List ResultPart

pub data Block : Type 0 where
  text : String → Block
  tool_use : ToolUse → Block
  tool_result : ToolResult → Block
  thinking : String → Block
  redacted_thinking : String → Block
  other : String → Block

pub record Message : Type 0 where
  pub role : Role
  pub content : List Block

-- `OfToolUse != nil` and `OfToolResult != nil`, with the ids that they give.
abbrev pub call_id : Block → List String
call_id (tool_use u) = u.id ∷ []
call_id (text s) = []
call_id (tool_result r) = []
call_id (thinking s) = []
call_id (redacted_thinking s) = []
call_id (other s) = []

abbrev pub answer_id : Block → List String
answer_id (tool_result r) = r.tool_use_id ∷ []
answer_id (text s) = []
answer_id (tool_use u) = []
answer_id (thinking s) = []
answer_id (redacted_thinking s) = []
answer_id (other s) = []

abbrev pub is_result : Block → Bool
is_result (tool_result r) = true
is_result (text s) = false
is_result (tool_use u) = false
is_result (thinking s) = false
is_result (redacted_thinking s) = false
is_result (other s) = false

-- The ids of the tool calls of some blocks, and of the tool results, in order.
abbrev pub call_ids : List Block → List String
call_ids [] = []
call_ids (b ∷ bs) = call_id b ++ call_ids bs

abbrev pub answer_ids : List Block → List String
answer_ids [] = []
answer_ids (b ∷ bs) = answer_id b ++ answer_ids bs

-- `anthropic.NewUserMessage` and a message of the other role.
abbrev pub user_message : List Block → Message
user_message blocks = record { role = user; content = blocks }

abbrev pub assistant_message : List Block → Message
assistant_message blocks = record { role = assistant; content = blocks }

pub answer_ids-append :
    (xs ys : List Block) → answer_ids (xs ++ ys) ≡ answer_ids xs ++ answer_ids ys
answer_ids-append [] ys = refl
answer_ids-append (text s ∷ xs) ys = answer_ids-append xs ys
answer_ids-append (tool_use u ∷ xs) ys = answer_ids-append xs ys
answer_ids-append (tool_result r ∷ xs) ys = ap (◌∷◌ r.tool_use_id) (answer_ids-append xs ys)
answer_ids-append (thinking s ∷ xs) ys = answer_ids-append xs ys
answer_ids-append (redacted_thinking s ∷ xs) ys = answer_ids-append xs ys
answer_ids-append (other s ∷ xs) ys = answer_ids-append xs ys
