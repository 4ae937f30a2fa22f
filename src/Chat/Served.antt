-- ===== src/Chat/Served.antt =====
-- `serve` of the chat pipeline behind the calls of a registered provider.
use cost_optimized_llm_infer.Common.{
  ℕ, false, Option, none, some, is_empty, ◌≡◌, refl, Double, Option-cases, inl, inr,
}
use cost_optimized_llm_infer.Types.{ChatRequest, ChatResponse, RouteDecision}
use cost_optimized_llm_infer.Metrics.{inc_errors}
use cost_optimized_llm_infer.Config.{GatewayConfig}
use cost_optimized_llm_infer.Router.{Router}
use cost_optimized_llm_infer.Providers.{Registry, Provider, find_provider}
use cost_optimized_llm_infer.Chat.{
  Gateway, World, Calls, Outcome, all_failed, call_providers, finish, serve,
}

module _ {F : Type 0} ⦃d : Double F⦄ where
  -- What `serve` makes of the router and the reply behind the calls of the providers.
  abbrev pub served_by :
      ℕ
      → World
      → GatewayConfig F
      → ChatRequest F
      → RouteDecision F
      → Gateway F
      → Router F × Option (ChatResponse F)
      → Option (Gateway F × Outcome F)
  served_by fuel w cfg req dec g (r, none) =
      some (record g { router = r; metrics = inc_errors g.metrics }, all_failed req.model)
  served_by fuel w cfg req dec g (r, some answer) =
      finish fuel w cfg req dec answer (record g { router = r })

  pub serve_found :
      (fuel : ℕ) (w : World) (cfg : GatewayConfig F) (reg : Registry) (call : Calls F)
      (req : ChatRequest F) (dec : RouteDecision F) (g : Gateway F) (p : Provider)
      → is_empty dec.provider ≡ false
      → find_provider dec.provider reg ≡ some p
      → serve fuel w cfg reg call req dec g
        ≡ served_by fuel w cfg req dec g (call_providers w reg call req dec g.router)
  unfolding serve
  serve_found fuel w cfg reg call req dec g p named found =
      elim (Option-cases (call_providers w reg call req dec g.router).1) [
        | inl e ↦ rw (named, found, e, serve) refl
        | inr (answer, e) ↦ rw (named, found, e, serve) refl
      ]
