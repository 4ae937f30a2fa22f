-- ===== src/Router/Scores.antt =====
-- src/router.cpp: the smart strategy, which sorts the models of the providers by a score.
use cost_optimized_llm_infer.Common.{
  Bool, not, ◌||◌, List, [], ◌∷◌, map, none, some, Text, same_text, take, concat, sort, pos, ◌*ℤ◌,
  lookup, Double, if◌then◌else◌,
}
use cost_optimized_llm_infer.Types.{RouteDecision, smart}
use cost_optimized_llm_infer.Config.{ProviderConfig, GatewayConfig}
use cost_optimized_llm_infer.CostTracker.{price_key}
use cost_optimized_llm_infer.Router.{Router, is_down, min_F}
use cost_optimized_llm_infer.Router.Strategies.{decision, total_price}

pub record Candidate (F : Type 0) : Type 0 where
  pub provider : Text
  pub model : Text
  pub score : F

module _ {F : Type 0} ⦃d : Double F⦄ where
  open d use {lit, of_int, add, sub, mul, div, lt}

  -- `score += weight * 10` for the first provider of that name.
  unfoldable pub add_weight : Text → F → List ProviderConfig → F
  add_weight name score [] = score
  add_weight name score (pc ∷ pcs) =
      if same_text pc.name name
      then add score (of_int (pc.weight *ℤ pos 10))
      else add_weight name score pcs

  unfoldable pub score_provider : Text → GatewayConfig F → Router F → F
  score_provider name cfg r =
      let score : F = elim (lookup name r.health) [
        | none ↦ lit 100 0
        | some h ↦
            let slow =
              sub (sub (lit 100 0) (mul h.error_rate (lit 50 0)))
                (min_F (div h.avg_latency_ms (lit 100 0)) (lit 30 0)) in
            if h.available then slow else sub slow (lit 1000 0)
      ] in
      add_weight name score cfg.providers

  unfoldable pub candidate : GatewayConfig F → Router F → Text → Text → Candidate F
  candidate cfg r name model = record {
    provider = name;
    model = model;
    score = elim (lookup (price_key name model) cfg.pricing) [
      | none ↦ score_provider name cfg r
      | some p ↦ sub (score_provider name cfg r) (mul (total_price p) (lit 100 0))
    ];
  }

  unfoldable pub candidates_of : GatewayConfig F → Router F → ProviderConfig → List (Candidate F)
  candidates_of cfg r pc =
      if not pc.enabled || is_down pc.name r.health
      then []
      else map (candidate cfg r pc.name) pc.models

  unfoldable pub candidates : GatewayConfig F → Router F → List (Candidate F)
  candidates cfg r = concat (map (candidates_of cfg r) cfg.providers)

  unfoldable pub by_score : Candidate F → Candidate F → Bool
  by_score a b = lt b.score a.score

  unfoldable pub route_smart : GatewayConfig F → Router F → RouteDecision F
  route_smart cfg r = elim (sort by_score (candidates cfg r)) [
    | [] ↦ decision [] [] smart []
    | c ∷ cs ↦ decision c.provider c.model smart (map (λ x. x.provider) (take 3 cs))
  ]
