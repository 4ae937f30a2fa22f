-- ===== src/Router/Failures.antt =====
-- How a report of a failure reaches the routing of the requests behind it.
use cost_optimized_llm_infer.Common.{
  ℕ, false, [], none, some, Text, split_at_byte, ◌≡◌, ◌≢◌, inl, inr, sym, ap, ◌∙◌, Double, ◌≺◌,
  IsOrdered, All, All-map_of,
}
use mathlib.Core.Bool.{true≢false}
use cost_optimized_llm_infer.Types.{ChatRequest, RouteDecision, cost_optimized}
use cost_optimized_llm_infer.Config.{GatewayConfig}
use cost_optimized_llm_infer.Router.{
  Router, is_down, resolve_model_alias, report_failure, get_health,
}
use cost_optimized_llm_infer.Router.Dispatch.{route}
use cost_optimized_llm_infer.Router.Ready.{Serves, route-IsServed}
use cost_optimized_llm_infer.Router.Health.{down_by_rate}

module _ {F : Type 0} ⦃d : Double F⦄ (o : IsOrdered F) where
  open d use {lit}

  -- Once a failure has pushed the error rate of a provider above one half, it is neither chosen nor a
  -- fallback, unless a request names it or the strategy is `cost`.
  pub route-report_failure :
      (cfg : GatewayConfig F) (now : ℕ) (p : Text) (r : Router F) (req : ChatRequest F)
      → p ≢ []
      → lit 5 1 ≺ (get_health p (report_failure now p r)).error_rate
      → split_at_byte 58 (resolve_model_alias req.model cfg) ≡ none
      → r.strategy ≢ cost_optimized
      → (out : RouteDecision F × Router F) × (route req cfg (report_failure now p r) ≡ some out)
        × (out.0.provider ≢ p)
        × All (λ q. q ≢ p) out.0.fallback_chain
  unfolding report_failure
  route-report_failure cfg now p r req named high direct other =
      let (out, made, served) = route-IsServed cfg (report_failure now p r) req direct other in
      let avoided : (q : Text) → Serves cfg (report_failure now p r) q → q ≢ p =
        λ q s e. not_up q e s.up in
      (
        out,
        made,
        λ e. elim served.chosen [
          | inl nobody ↦ named (sym e ∙ nobody)
          | inr s ↦ avoided out.0.provider s e
        ],
        All-map_of (Serves cfg (report_failure now p r)) (λ q. q ≢ p) out.0.fallback_chain avoided
            served.backed,
      )
    where
      not_up : (q : Text) → q ≡ p → is_down q (report_failure now p r).health ≢ false
      not_up q e up = true≢false (
          sym (down_by_rate o now p r high)
          ∙ ap (λ n. is_down n (report_failure now p r).health) (sym e)
          ∙ up)
