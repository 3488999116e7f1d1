-- ===== src/Failover.antt =====
-- engine/failover.go: which model runs a turn, and how long it may take. The model store is an argument.
-- Durations are nanoseconds in int64, whose multiplication wraps.
use inber.Prelude.{
  ℕ, ◌+◌, ◌-◌, ◌*◌, ◌%◌, ◌^◌, String, List, [], ◌∷◌, Option, none, some, Bool, true, false, not,
  ◌||◌, str_eq, ltb, ◌==◌, if◌then◌else◌,
}
use inber.Prelude.Int.{ℤ, pos, negsuc, ltb_ℤ}
pub mod Selection

-- What model-store knows of a model: `IsHealthy` for the last half hour, `IsUnknown`, and the average.
pub record ModelHealth : Type 0 where
  pub is_healthy : Bool
  pub is_unknown : Bool
  pub avg_response_ms : ℕ

-- `FailoverChain` gives `none` on an error.
pub record ModelStore : Type 0 where
  pub get_health : String → ModelHealth
  pub failover_chain : Option (List String)

pub record Engine : Type 0 where
  pub model : String
  pub model_explicitly_set : Bool
  pub model_store : Option ModelStore

abbrev pub second : ℕ
second = 1000000000

abbrev pub default_timeout : ℕ
default_timeout = 180 * second

-- The int64 that the bits of a number stand for.
unfoldable pub int64 : ℕ → ℤ
int64 n =
    let bits = n % 2 ^ 64 in if ltb bits (2 ^ 63) then pos bits else negsuc (2 ^ 64 - 1 - bits)

-- Between half a minute and five minutes.
abbrev pub clamped : ℤ → ℕ
clamped (negsuc n) = 30 * second
clamped (pos n) =
    if ltb n (30 * second) then 30 * second else if ltb (300 * second) n then 300 * second else n

unfoldable pub timeout_from_health : Option ModelHealth → ℕ → ℕ
timeout_from_health none default_to = default_to
timeout_from_health (some h) default_to =
    if h.avg_response_ms == 0 then default_to else clamped (int64 (h.avg_response_ms * 3 * 1000000))

abbrev pub is_usable : ModelHealth → Bool
is_usable h = h.is_healthy || h.is_unknown

abbrev pub timeout_of : ModelStore → String → ℕ
timeout_of store model = timeout_from_health (some (store.get_health model)) default_timeout

-- The loop over the fallbacks.
unfoldable pub first_usable : ModelStore → String → List String → Option String
first_usable store preferred [] = none
first_usable store preferred (fallback ∷ chain) =
    let later = first_usable store preferred chain in
    if str_eq fallback preferred
    then later
    else if is_usable (store.get_health fallback)
    then some fallback
    else later

abbrev pub fallback_chain : ModelStore → List String
fallback_chain store = elim store.failover_chain [ none ↦ [] | some chain ↦ chain ]

abbrev pub or_preferred : ModelStore → String → Option String → String × ℕ
or_preferred store preferred none = (preferred, default_timeout)
or_preferred store preferred (some fallback) = (fallback, timeout_of store fallback)

abbrev pub select_from : ModelStore → String → Bool → String × ℕ
select_from store preferred explicit =
    if explicit || is_usable (store.get_health preferred)
    then (preferred, timeout_of store preferred)
    else or_preferred store preferred (first_usable store preferred (fallback_chain store))

abbrev pub select_with : Option ModelStore → String → Bool → String × ℕ
select_with none preferred explicit = (preferred, default_timeout)
select_with (some store) preferred explicit = select_from store preferred explicit

unfoldable pub select_model : Engine → String × ℕ
select_model e = select_with e.model_store e.model e.model_explicitly_set
