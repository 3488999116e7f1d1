-- ===== src/Samples/Failovers.antt =====
-- A model that is down, with two to fall back on.
use inber.Prelude.{◌≡◌, refl, [], ◌∷◌, some, true, false, str_eq, if◌then◌else◌}
use inber.Failover.{
  ModelHealth, ModelStore, Engine, select_model, first_usable, timeout_from_health, int64,
}
use inber.Failover.Selection.{IsSelected, select_model-IsSelected}

abbrev down : ModelHealth
down = record { is_healthy = false; is_unknown = false; avg_response_ms = 2000 }

abbrev up : ModelHealth
up = record { is_healthy = true; is_unknown = false; avg_response_ms = 20000 }

abbrev store : ModelStore
store = record {
  get_health = λ model. if str_eq model "third" then up else down;
  failover_chain = some ("first" ∷ "second" ∷ "third" ∷ []);
}

abbrev engine : Engine
engine = record { model = "first"; model_explicitly_set = false; model_store = some store }

select_run : select_model engine ≡ ("third", 60000000000)
unfolding select_model first_usable timeout_from_health int64
select_run = refl

select_model-IsSelected_example : IsSelected (some store) "first" false (select_model engine)
select_model-IsSelected_example = select_model-IsSelected engine
