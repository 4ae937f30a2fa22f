-- ===== src/Router/Dispatch.antt =====
-- src/router.cpp: `route`, from the model that is asked for to a strategy or to a provider.
use cost_optimized_llm_infer.Common.{
  not, ◌&&◌, List, map, Option, none, some, Text, same_text, split_at_byte, keep, Dict, Double,
}
use cost_optimized_llm_infer.Types.{
  ChatRequest, ProviderHealth, RouteDecision, RoutingStrategy, cost_optimized, latency_optimized,
  round_robin, failover, smart,
}
use cost_optimized_llm_infer.Config.{GatewayConfig}
use cost_optimized_llm_infer.Router.{Router, resolve_model_alias}
use cost_optimized_llm_infer.Router.Strategies.{
  decision, route_cost_optimized, route_latency_optimized, route_round_robin, route_failover,
}
use cost_optimized_llm_infer.Router.Scores.{route_smart}

module _ {F : Type 0} ⦃d : Double F⦄ where
  -- The switch of `route`.
  unfoldable pub route_by :
      RoutingStrategy → GatewayConfig F → Router F → Option (RouteDecision F × Router F)
  route_by cost_optimized cfg r = some (route_cost_optimized cfg r, r)
  route_by latency_optimized cfg r = some (route_latency_optimized cfg r, r)
  route_by round_robin cfg r = route_round_robin cfg r
  route_by failover cfg r = some (route_failover cfg r, r)
  route_by smart cfg r = some (route_smart cfg r, r)

  -- The fallbacks of a direct route: every other provider that is known to be available.
  unfoldable pub others : Text → Dict (ProviderHealth F) → List Text
  others provider health =
      map (λ (name, _). name)
        (keep (λ (name, h). not (same_text name provider) && h.available) health)

  unfoldable pub route :
      ChatRequest F → GatewayConfig F → Router F → Option (RouteDecision F × Router F)
  route req cfg r = elim (split_at_byte 58 (resolve_model_alias req.model cfg)) [
    | some (provider, model) ↦
        some (decision provider model r.strategy (others provider r.health), r)
    | none ↦ route_by r.strategy cfg r
  ]
