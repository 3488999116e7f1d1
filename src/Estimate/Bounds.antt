-- ===== src/Estimate/Bounds.antt =====
-- conversation/image_tokens.go: how much an image may weigh.
use native.Mathlib.Nat.{mul-pos}
use inber.Prelude.{◌*◌, ◌+◌, ◌-◌, ◌<◌, ℕ, ◌≤◌, ◌/◌, inl, inr, arith, ltb, ◌==◌, ◌||◌, Bool-cases}
use inber.Estimate.{
  tokens_of_pixels, max, image_tokens_for_size, image_token_ceiling, image_long_edge_limit_pixels,
}

tokens_of_pixels-bounds :
    (width height : ℕ)
    → 1 ≤ width
    → 1 ≤ height
    → (1 ≤ tokens_of_pixels width height) × (tokens_of_pixels width height ≤ image_token_ceiling)
tokens_of_pixels-bounds width height a b =
    let area : 0 < width * height = mul-pos (omega arith) (omega arith) in
    let whole : 1 ≤ (width * height + 750 - 1) / 750 = omega arith in (omega arith, omega arith)

-- An image weighs one token at least, and no more than the largest one the API keeps.
pub image_tokens_for_size-bounds :
    (scaled : ℕ → ℕ → ℕ) (width height : ℕ)
    → (1 ≤ image_tokens_for_size scaled width height)
      × (image_tokens_for_size scaled width height ≤ image_token_ceiling)
unfolding image_tokens_for_size
image_tokens_for_size-bounds scaled width height =
    elim (Bool-cases ((width == 0) || (height == 0))) [
      | inl void ↦ rw void (omega arith, omega arith)
      | inr real ↦ elim (Bool-cases (ltb image_long_edge_limit_pixels (max width height))) [
        | inl big ↦ rw (real, big) (tokens_of_pixels-bounds _ _ (ground arith) (ground arith))
        | inr fits ↦
            rw (real, fits) (tokens_of_pixels-bounds width height (ground arith) (ground arith))
      ]
    ]
