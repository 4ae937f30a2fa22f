-- ===== src/Tests/Routing.antt =====
-- Runs of the router over two providers.
use cost_optimized_llm_infer.Common.{
  lookup, text_dec, true, [], ◌∷◌, some, ◌≡◌, ◌⊎◌, inl, inr, refl, arith, ℤ, pos, codes, lookup,
  ◌≺◌, All-of_Elem, split_at_byte, ◌+ℤ◌, text_dec,
}
use mathlib.Core.List.{cons≢nil}
use cost_optimized_llm_infer.Types.{ProviderHealth, ModelPricing, RouteDecision, smart}
use cost_optimized_llm_infer.CostTracker.{price_key}
use cost_optimized_llm_infer.Router.{Router, is_ready, has_models, is_down, resolve_model_alias}
use cost_optimized_llm_infer.Router.Strategies.{route_cost_optimized, total_price}
use cost_optimized_llm_infer.Router.Scores.{Candidate, route_smart, candidates}
use cost_optimized_llm_infer.Router.Dispatch.{route}
use cost_optimized_llm_infer.Router.Cheapest.{IsOffer, route_cost_optimized-cheapest}
use cost_optimized_llm_infer.Router.Smartest.{IsHighest, route_smart-IsHighest}
use cost_optimized_llm_infer.Router.Turns.{turns, turns_lem}
use cost_optimized_llm_infer.Config.{ProviderConfig}
use cost_optimized_llm_infer.Router.{first_model}
use cost_optimized_llm_infer.Router.Strategies.{route_latency_optimized, latency_of}
use cost_optimized_llm_infer.Router.Quickest.{TakesPart, route_latency_optimized-quickest}
use cost_optimized_llm_infer.Router.Ready.{IsServed, route-IsServed}
use cost_optimized_llm_infer.Tests.Values.{
  millionths, millionths-IsOrdered, request, gateway, price_of, provider_named,
}

-- The record of a provider that has failed five times.
abbrev failing : ProviderHealth ℤ
failing = record {
  name = codes "a";
  available = true;
  avg_latency_ms = pos 0;
  error_rate = pos 500_000;
  requests_last_minute = pos 0;
  errors_last_minute = pos 5;
  last_success = 0;
  last_error = 5;
}

abbrev router : Router ℤ
router = record { health = (codes "a", failing) ∷ []; round_robin_idx = 0; strategy = smart }

route_cost_optimized-cheapest_example :
    let dec = route_cost_optimized gateway router in
    (q : ModelPricing ℤ) × IsOffer gateway router dec.provider dec.model q
    × (dec.estimated_cost ≡ total_price q)
    × ¬ (total_price (price_of (codes "b") (codes "tiny") 200) ≺ dec.estimated_cost)
unfolding lookup text_dec is_down price_key total_price ◌+ℤ◌
route_cost_optimized-cheapest_example =
    route_cost_optimized-cheapest millionths-IsOrdered gateway router
      (λ e. cons≢nil e, (λ e. cons≢nil e, tt)) (codes "b") (codes "tiny")
      (price_of (codes "b") (codes "tiny") 200)
      (record {
        by = provider_named (codes "b") true (codes "tiny" ∷ []);
        known = inr (inl refl);
        named = refl;
        on = refl;
        up = refl;
        serves = inl refl;
        price = refl;
      })
      refl

itself : (x : ℤ) → millionths.eq x x ≡ true
itself x = ground arith

route_smart-IsHighest_example :
    (candidates gateway router ≡ [])
    ⊎ ((c : Candidate ℤ) × IsHighest millionths-IsOrdered gateway router c
        × ((route_smart gateway router).provider ≡ c.provider)
        × ((route_smart gateway router).model ≡ c.model))
route_smart-IsHighest_example =
    route_smart-IsHighest millionths-IsOrdered gateway router
      (All-of_Elem _ (candidates gateway router) (λ c m. itself c.score))

route-IsServed_example :
    (out : RouteDecision ℤ × Router ℤ) × (route request gateway router ≡ some out)
    × IsServed gateway router out.0
unfolding resolve_model_alias lookup split_at_byte text_dec
route-IsServed_example = route-IsServed gateway router request refl (λ e. absurd cc)

turns_lem_example : turns 2 gateway router ≡ some (codes "a" ∷ codes "b" ∷ [])
unfolding is_ready has_models is_down lookup text_dec
turns_lem_example =
    turns_lem 0 gateway router
      (provider_named (codes "a") true (codes "big" ∷ [])
        ∷ provider_named (codes "b") true (codes "tiny" ∷ [])
        ∷ [])
      refl (omega arith) (omega arith)

-- The provider that has failed, before it is marked as unavailable, and one that is not known.
second_TakesPart :
    TakesPart millionths-IsOrdered gateway router
      (provider_named (codes "b") true (codes "tiny" ∷ []))
unfolding lookup text_dec is_down has_models
second_TakesPart = record { known = inr (inl refl); on = refl; up = refl; equipped = refl }

first_TakesPart :
    TakesPart millionths-IsOrdered gateway router
      (provider_named (codes "a") true (codes "big" ∷ []))
unfolding lookup text_dec is_down has_models
first_TakesPart = record { known = inl refl; on = refl; up = refl; equipped = refl }

route_latency_optimized-quickest_example :
    let dec = route_latency_optimized gateway router in
    (pc : ProviderConfig) × TakesPart millionths-IsOrdered gateway router pc
    × (dec.provider ≡ pc.name)
    × (dec.model ≡ first_model pc.models)
    × ¬ (latency_of (codes "b") router.health ≺ latency_of pc.name router.health)
unfolding latency_of lookup text_dec
route_latency_optimized-quickest_example =
    route_latency_optimized-quickest millionths-IsOrdered gateway router
      (provider_named (codes "a") true (codes "big" ∷ []))
      (provider_named (codes "b") true (codes "tiny" ∷ [])) first_TakesPart refl second_TakesPart
