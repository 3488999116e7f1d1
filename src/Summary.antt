-- ===== src/Summary.antt =====
-- conversation/summary_generation.go, `generateSummary`, and what it and the compaction are given.
-- The model's API, the memory store, the random id and the count of tokens are `Services`.
use Prim.Native.Char.{Char}
use Prim.Native.String
use inber.Prelude.{
  ℕ, zero, suc, ◌/◌, ◌%◌, String, List, [], ◌∷◌, Option, none, some, Bool, str_eq, ltb, ◌==◌,
  if◌then◌else◌,
}
use inber.Prelude.Int.{ℤ}
use inber.Transcript.{join}

abbrev digit : ℕ → Char
digit d =
    if d == 0
    then "0"
    else if d == 1
    then "1"
    else if d == 2
    then "2"
    else if d == 3
    then "3"
    else if d == 4
    then "4"
    else if d == 5
    then "5"
    else if d == 6
    then "6"
    else if d == 7
    then "7"
    else if d == 8
    then "8"
    else "9"

digits : ℕ → ℕ → String → String
digits zero n more = more
digits (suc fuel) n more =
    let rest = digits fuel (n / 10) (String.◌∷◌ (digit (n % 10)) more) in
    if ltb n 10 then String.◌∷◌ (digit n) more else rest

-- `%d`. A number has no more digits than it counts, but for zero.
unfoldable pub decimal : ℕ → String
unfolding digits
decimal n = digits (suc n) n ""

-- A row of the memory store, but for its importance, which is the same for all of these.
pub record Memory : Type 0 where
  pub id : String
  pub content : String
  pub summary : String
  pub tags : List String
  pub source : String

pub data ReplyBlock : Type 0 where
  reply_text : String → ReplyBlock
  reply_other : ReplyBlock

pub record Response : Type 0 where
  pub stop_reason : String
  pub content : List ReplyBlock

pub data Reply : Type 0 where
  reply : Response → Reply
  call_failed : String → Reply

pub record Request : Type 0 where
  pub model : String
  pub max_tokens : ℤ
  pub user_prompt : String

-- The code's environment: a context that may be over, the API, the store if there is one, with the
-- error of a save, and what `uuid` and `EstimateTokens` give.
pub record Services : Type 0 where
  pub context_error : Option String
  pub messages_new : Request → Reply
  pub mem_store : Option (Memory → Option String)
  pub new_id : String
  pub estimate_tokens : String → ℕ

pub data Generated : Type 0 where
  written : String → Bool → Generated
  failed : String → Generated

abbrev reply_texts : List ReplyBlock → List String
reply_texts [] = []
reply_texts (reply_text s ∷ blocks) = s ∷ reply_texts blocks
reply_texts (reply_other ∷ blocks) = reply_texts blocks

abbrev summary_request : String → String → ℤ → Request
summary_request conversation_text model max_tokens = record {
  model = model;
  max_tokens = max_tokens;
  user_prompt = String.◌++◌ "Please summarize this conversation:\n\n" (
      String.◌++◌ conversation_text
        "\n\nCreate a concise summary that captures the key points and context needed to continue this conversation effectively.");
}

abbrev read_response : String → Response → Generated
read_response model response =
    if str_eq response.stop_reason "refusal"
    then failed (
        String.◌++◌ "summarization model " (
          String.◌++◌ model
            " refused (stop_reason \"refusal\"); the transcript was not exchanged for its reply"))
    else elim (reply_texts response.content) [
      | [] ↦ failed "no text content in summarization response"
      | first ∷ more ↦ written (join "\n" (first ∷ more)) (str_eq response.stop_reason "max_tokens")
    ]

unfoldable pub generate_summary : Services → String → String → ℤ → Generated
generate_summary services conversation_text model max_tokens = elim services.context_error [
  | some e ↦ failed (String.◌++◌ "summarization canceled before the API call: " e)
  | none ↦ elim (services.messages_new (summary_request conversation_text model max_tokens)) [
    | call_failed e ↦ failed (String.◌++◌ "summarization API call failed: " e)
    | reply response ↦ read_response model response
  ]
]
