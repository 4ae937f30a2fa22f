-- ===== src/Router.antt =====
-- include/router.h and src/router.cpp. The health map is an association list in the order of
-- iteration; `Clock::now()` is an argument; the lock makes an operation one step.
pub mod Strategies
pub mod Scores
pub mod Dispatch
pub mod Health
pub mod Cheapest
pub mod Quickest
pub mod Ready
pub mod Failures
pub mod Smartest
pub mod Turns
use cost_optimized_llm_infer.Common.{
  ℕ, Bool, true, false, not, ◌&&◌, List, [], ◌∷◌, map, none, some, Text, pos, ◌+ℤ◌, Dict, lookup,
  insert, Double, if◌then◌else◌,
}
use cost_optimized_llm_infer.Types.{ProviderHealth, RoutingStrategy}
use cost_optimized_llm_infer.Config.{ProviderConfig, GatewayConfig}

-- `round_robin_idx` holds the 32 bits of an `atomic<int>`.
pub record Router (F : Type 0) : Type 0 where
  pub health : Dict (ProviderHealth F)
  pub round_robin_idx : ℕ
  pub strategy : RoutingStrategy

-- `models[0]`, which the code reads behind a test that there is one.
unfoldable pub first_model : List Text → Text
first_model [] = []
first_model (m ∷ ms) = m

unfoldable pub has_models : ProviderConfig → Bool
has_models pc = elim pc.models [ [] ↦ false | _ ∷ _ ↦ true ]

module _ {F : Type 0} where
  -- The provider has a record, and it says that the provider is not available.
  unfoldable pub is_down : Text → Dict (ProviderHealth F) → Bool
  is_down name health = elim (lookup name health) [ none ↦ false | some h ↦ not h.available ]

  -- The loops of round robin and failover.
  unfoldable pub is_ready : Dict (ProviderHealth F) → ProviderConfig → Bool
  is_ready health pc = pc.enabled && has_models pc && not (is_down pc.name health)

  -- The constructor.
  unfoldable pub init : GatewayConfig F → Router F
  init cfg = record { health = []; round_robin_idx = 0; strategy = cfg.default_strategy }

  unfoldable pub resolve_model_alias : Text → GatewayConfig F → Text
  resolve_model_alias model cfg = elim (lookup model cfg.model_aliases) [
    | none ↦ model
    | some a ↦ a
  ]

  unfoldable pub set_strategy : RoutingStrategy → Router F → Router F
  set_strategy s r = record r { strategy = s }

  unfoldable pub get_strategy : Router F → RoutingStrategy
  get_strategy r = r.strategy

  unfoldable pub get_all_health : Router F → List (ProviderHealth F)
  get_all_health r = map (λ (_, h). h) r.health

module _ {F : Type 0} ⦃d : Double F⦄ where
  open d use {lit, of_int, add, mul, lt, eq}

  -- `std::min`
  unfoldable pub min_F : F → F → F
  min_F a b = if lt b a then b else a

  -- A health record that `operator[]` makes.
  unfoldable pub new_health : ProviderHealth F
  new_health = record {
    name = [];
    available = true;
    avg_latency_ms = of_int (pos 0);
    error_rate = of_int (pos 0);
    requests_last_minute = pos 0;
    errors_last_minute = pos 0;
    last_success = 0;
    last_error = 0;
  }

  unfoldable pub find_health : Text → Dict (ProviderHealth F) → ProviderHealth F
  find_health provider health = elim (lookup provider health) [ none ↦ new_health | some h ↦ h ]

  unfoldable pub succeeded : ℕ → Text → F → ProviderHealth F → ProviderHealth F
  succeeded now provider latency_ms h = record h {
    name = provider;
    available = true;
    requests_last_minute = h.requests_last_minute +ℤ pos 1;
    last_success = now;
    avg_latency_ms =
        if eq h.avg_latency_ms (of_int (pos 0))
        then latency_ms
        else add (mul h.avg_latency_ms (lit 9 1)) (mul latency_ms (lit 1 1));
    error_rate = mul h.error_rate (lit 95 2);
  }

  unfoldable pub report_success : ℕ → Text → F → Router F → Router F
  report_success now provider latency_ms r = record r {
    health =
        insert provider (succeeded now provider latency_ms (find_health provider r.health))
          r.health;
  }

  unfoldable pub failed : ℕ → Text → ProviderHealth F → ProviderHealth F
  failed now provider h =
      let rate = min_F (lit 1 0) (add h.error_rate (lit 1 1)) in
      record h {
        name = provider;
        errors_last_minute = h.errors_last_minute +ℤ pos 1;
        last_error = now;
        error_rate = rate;
        available = if lt (lit 5 1) rate then false else h.available;
      }

  unfoldable pub report_failure : ℕ → Text → Router F → Router F
  report_failure now provider r = record r {
    health = insert provider (failed now provider (find_health provider r.health)) r.health;
  }

  unfoldable pub get_health : Text → Router F → ProviderHealth F
  get_health provider r = elim (lookup provider r.health) [
    | none ↦ record new_health { name = provider }
    | some h ↦ h
  ]
