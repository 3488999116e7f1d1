-- ===== src/Estimate.antt =====
-- conversation/image_tokens.go and the estimators of conversation/manage_text_utils.go: what a
-- message weighs. A block that is an image on its own is among the `other` ones.
use inber.Prelude.{
  ℕ, ◌+◌, ◌-◌, ◌*◌, ◌/◌, String, List, [], ◌∷◌, Option, none, some, Bool, true, false, ◌||◌, leb,
  ltb, ◌==◌, if◌then◌else◌, min,
}
use inber.Message.{
  Block, text, tool_use, tool_result, thinking, redacted_thinking, other, ToolResult, ResultPart,
  result_text, result_image, Message,
}
pub mod Bounds

-- What the libraries tell: the tokens of a block as JSON (`encoding/json` and memory-store), whether a
-- block is an image, the size that an image's header gives (`image.DecodeConfig`, of base64 data), and
-- the float64 product `int(float64(n) * (2576 / longEdge))`.
pub record Estimator : Type 0 where
  pub marshalled : Block → ℕ
  pub image_of : String → Option String
  pub decode_size : String → Option (ℕ × ℕ)
  pub scaled : ℕ → ℕ → ℕ

abbrev pub image_long_edge_limit_pixels : ℕ
image_long_edge_limit_pixels = 2576

abbrev pub image_token_ceiling : ℕ
image_token_ceiling = 2576 * 2576 / 750

abbrev pub max : ℕ → ℕ → ℕ
max a b = if ltb a b then b else a

abbrev pub tokens_of_pixels : ℕ → ℕ → ℕ
tokens_of_pixels width height = min ((width * height + 750 - 1) / 750) image_token_ceiling

unfoldable pub image_tokens_for_size : (ℕ → ℕ → ℕ) → ℕ → ℕ → ℕ
image_tokens_for_size scaled width height =
    let long_edge = max width height in
    if (width == 0) || (height == 0)
    then image_token_ceiling
    else if ltb image_long_edge_limit_pixels long_edge
    then tokens_of_pixels (max 1 (scaled long_edge width)) (max 1 (scaled long_edge height))
    else tokens_of_pixels width height

abbrev pub tokens_for : Estimator → Option (ℕ × ℕ) → ℕ
tokens_for estimator none = image_token_ceiling
tokens_for estimator (some (width, height)) = image_tokens_for_size estimator.scaled width height

unfoldable pub estimate_image_tokens : Estimator → String → ℕ
unfolding image_tokens_for_size
estimate_image_tokens estimator image = tokens_for estimator (estimator.decode_size image)

abbrev part_tokens : Estimator → List ResultPart → ℕ
part_tokens estimator [] = 0
part_tokens estimator (result_text s ∷ parts) = part_tokens estimator parts
part_tokens estimator (result_image s ∷ parts) =
    estimate_image_tokens estimator s + part_tokens estimator parts

abbrev pub without_images : List ResultPart → List ResultPart
without_images [] = []
without_images (result_text s ∷ parts) = result_text s ∷ without_images parts
without_images (result_image s ∷ parts) = without_images parts

abbrev other_tokens : Estimator → String → Option String → ℕ
other_tokens estimator s none = estimator.marshalled (other s)
other_tokens estimator s (some image) = estimate_image_tokens estimator image

unfoldable pub estimate_content_block_tokens : Estimator → Block → ℕ
unfolding estimate_image_tokens
estimate_content_block_tokens estimator (tool_result r) =
    part_tokens estimator r.content
    + estimator.marshalled (tool_result (record r { content = without_images r.content }))
estimate_content_block_tokens estimator (other s) = other_tokens estimator s (estimator.image_of s)
estimate_content_block_tokens estimator (text s) = estimator.marshalled (text s)
estimate_content_block_tokens estimator (tool_use u) = estimator.marshalled (tool_use u)
estimate_content_block_tokens estimator (thinking s) = estimator.marshalled (thinking s)
estimate_content_block_tokens estimator (redacted_thinking s) =
    estimator.marshalled (redacted_thinking s)

abbrev blocks_tokens : Estimator → List Block → ℕ
blocks_tokens estimator [] = 0
blocks_tokens estimator (b ∷ bs) =
    estimate_content_block_tokens estimator b + blocks_tokens estimator bs

unfoldable pub estimate_message_tokens : Estimator → Message → ℕ
unfolding estimate_content_block_tokens
estimate_message_tokens estimator m = blocks_tokens estimator m.content

unfoldable pub estimate_tokens : Estimator → List Message → ℕ
unfolding estimate_message_tokens
estimate_tokens estimator [] = 0
estimate_tokens estimator (m ∷ ms) =
    estimate_message_tokens estimator m + estimate_tokens estimator ms
