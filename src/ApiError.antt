-- ===== src/ApiError.antt =====
-- agent/agent.go and engine/failover.go: what an error of the model's API says, and about whom. `errors.Is`
-- is read off the flags of the error.
use inber.Prelude.{
  String, List, [], ◌∷◌, Option, none, some, Bool, false, not, ◌||◌, ◌&&◌, if◌then◌else◌,
}
use inber.Prelude.Int.{ℤ}
use inber.Texts.{contains_text, lower_contains}

unfoldable pub is_context_length_error : String → Bool
unfolding contains_text
is_context_length_error message =
    contains_text "prompt is too long" message
    || contains_text "context_length_exceeded" message
    || contains_text "maximum context length" message
    || contains_text "too many tokens" message

abbrev any_in : List String → String → Bool
any_in [] message = false
any_in (marker ∷ markers) message = lower_contains marker message || any_in markers message

unfoldable pub is_request_byte_size_limit_error : String → Bool
unfolding lower_contains
is_request_byte_size_limit_error message =
    any_in
      ("request_too_large" ∷ "request entity too large" ∷ "payload too large" ∷ "content too large"
        ∷ [])
      message
    || (any_in
          ("content length" ∷ "request size" ∷ "request length" ∷ "request body" ∷ "payload size"
            ∷ "body size" ∷ [])
          message
        && any_in ("exceed" ∷ "too large" ∷ []) message)

pub record Failure : Type 0 where
  pub canceled : Bool
  pub max_api_calls_exceeded : Bool
  pub unconvertible_content_block : Bool
  pub deadline_exceeded : Bool
  pub message : String

-- The flag is whether the turn's own context is over.
unfoldable pub error_is_evidence_about_the_model : Bool → Failure → Bool
unfolding is_request_byte_size_limit_error
error_is_evidence_about_the_model context_over e =
    if e.canceled || e.max_api_calls_exceeded || e.unconvertible_content_block
    then false
    else if e.deadline_exceeded
    then not context_over
    else not (is_request_byte_size_limit_error e.message)

-- What is written to the model store.
pub data Health : Type 0 where
  unchanged : Health
  record_error : String → String → Health
  record_success : String → ℤ → Health

unfoldable pub record_model_health : Bool → Bool → String → ℤ → Option Failure → Health
unfolding error_is_evidence_about_the_model
record_model_health has_store context_over model duration_ms none =
    if has_store then record_success model duration_ms else unchanged
record_model_health has_store context_over model duration_ms (some e) =
    if has_store && error_is_evidence_about_the_model context_over e
    then record_error model e.message
    else unchanged
