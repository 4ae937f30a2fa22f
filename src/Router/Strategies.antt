-- ===== src/Router/Strategies.antt =====
-- src/router.cpp: the four strategies that look through the providers in the order of the
-- configuration.
use cost_optimized_llm_infer.Common.{
  ℕ, ◌+◌, ◌-◌, ◌%◌, ◌^◌, not, ◌&&◌, ◌||◌, List, [], ◌∷◌, map, foldl, Option, none, some, Text,
  is_empty, same_text, length, get_elem?, keep, ltb, pos, Dict, lookup, Double, if◌then◌else◌,
}
use cost_optimized_llm_infer.Types.{
  ModelPricing, ProviderHealth, RouteDecision, RoutingStrategy, cost_optimized, latency_optimized,
  round_robin, failover,
}
use cost_optimized_llm_infer.Config.{ProviderConfig, GatewayConfig}
use cost_optimized_llm_infer.CostTracker.{price_key}
use cost_optimized_llm_infer.Router.{Router, first_model, has_models, is_down, is_ready}

-- The best choice of a scan so far.
pub record Best (F : Type 0) : Type 0 where
  pub provider : Text
  pub model : Text
  pub value : F

-- An `int` as `size_t`, which repeats its sign bit, modulo `n`.
unfoldable pub index_of : ℕ → ℕ → ℕ
index_of i n = (if ltb i (2 ^ 31) then i else i + 2 ^ 64 - 2 ^ 32) % n

-- The model of the first provider of that name that has one.
unfoldable pub model_of : Text → List ProviderConfig → Text
model_of primary [] = []
model_of primary (pc ∷ pcs) =
    if same_text pc.name primary && has_models pc
    then first_model pc.models
    else model_of primary pcs

module _ {F : Type 0} ⦃d : Double F⦄ where
  open d use {lit, of_int, add, lt}

  abbrev pub decision : Text → Text → RoutingStrategy → List Text → RouteDecision F
  decision provider model strategy chain = record {
    provider = provider;
    model = model;
    strategy_used = strategy;
    estimated_cost = of_int (pos 0);
    fallback_chain = chain;
  }

  unfoldable pub total_price : ModelPricing F → F
  total_price p = add p.input_cost_per_1k p.output_cost_per_1k

  -- One round of the inner loop of `route_cost_optimized`.
  unfoldable pub cheaper : Dict (ModelPricing F) → Text → Best F → Text → Best F
  cheaper pricing name best model = elim (lookup (price_key name model) pricing) [
    | none ↦ best
    | some p ↦
        if lt (total_price p) best.value
        then record { provider = name; model = model; value = total_price p }
        else best
  ]

  -- One round of its outer loop.
  unfoldable pub cheaper_of :
      Dict (ModelPricing F) → Dict (ProviderHealth F) → Best F → ProviderConfig → Best F
  cheaper_of pricing health best pc =
      if not pc.enabled || is_down pc.name health
      then best
      else foldl (cheaper pricing pc.name) best pc.models

  unfoldable pub cheapest : GatewayConfig F → Router F → Best F
  cheapest cfg r =
      foldl (cheaper_of cfg.pricing r.health)
        (record { provider = []; model = []; value = lit 1_000_000_000 0 }) cfg.providers

  -- The first provider that is enabled and has a model, whatever its health.
  unfoldable pub first_enabled : Best F → List ProviderConfig → Best F
  first_enabled best [] = best
  first_enabled best (pc ∷ pcs) =
      if pc.enabled && has_models pc
      then record best { provider = pc.name; model = first_model pc.models }
      else first_enabled best pcs

  unfoldable pub route_cost_optimized : GatewayConfig F → Router F → RouteDecision F
  route_cost_optimized cfg r =
      let best = cheapest cfg r in
      let chosen = if is_empty best.provider then first_enabled best cfg.providers else best in
      record {
        provider = chosen.provider;
        model = chosen.model;
        strategy_used = cost_optimized;
        estimated_cost = chosen.value;
        fallback_chain = [];
      }

  unfoldable pub latency_of : Text → Dict (ProviderHealth F) → F
  latency_of name health = elim (lookup name health) [
    | none ↦ lit 500 0
    | some h ↦ h.avg_latency_ms
  ]

  -- One round of the loop of `route_latency_optimized`.
  unfoldable pub faster : Dict (ProviderHealth F) → Best F → ProviderConfig → Best F
  faster health best pc =
      if not pc.enabled || is_down pc.name health
      then best
      else if lt (latency_of pc.name health) best.value && has_models pc
      then record {
        provider = pc.name;
        model = first_model pc.models;
        value = latency_of pc.name health;
      }
      else best

  unfoldable pub route_latency_optimized : GatewayConfig F → Router F → RouteDecision F
  route_latency_optimized cfg r =
      let best =
        foldl (faster r.health) (record { provider = []; model = []; value = lit 1_000_000_000 0 })
          cfg.providers in
      decision best.provider best.model latency_optimized []

  -- `none`: the index is out of range.
  unfoldable pub route_round_robin :
      GatewayConfig F → Router F → Option (RouteDecision F × Router F)
  route_round_robin cfg r = elim (keep (is_ready r.health) cfg.providers) [
    | [] ↦ some (decision [] [] round_robin [], r)
    | pc ∷ pcs ↦ elim (get_elem? (pc ∷ pcs) (index_of r.round_robin_idx (length (pc ∷ pcs)))) [
      | none ↦ none
      | some chosen ↦ some (
        decision chosen.name (first_model chosen.models) round_robin [],
        record r { round_robin_idx = (r.round_robin_idx + 1) % 2 ^ 32 },
      )
    ]
  ]

  unfoldable pub route_failover : GatewayConfig F → Router F → RouteDecision F
  route_failover cfg r = elim (keep (is_ready r.health) cfg.providers) [
    | [] ↦ decision [] [] failover []
    | pc ∷ pcs ↦ decision pc.name (model_of pc.name cfg.providers) failover (map (λ q. q.name) pcs)
  ]
