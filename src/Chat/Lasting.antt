-- ===== src/Chat/Lasting.antt =====
-- What the handler of src/api/chat_completions.cpp does to a provider that is marked as unavailable.
use mathlib.Core.Path.{subst}
use cost_optimized_llm_infer.Common.{
  ℕ, ◌<◌, true, Option, none, some, Text, is_empty, ◌≡◌, ◌≢◌, refl, sym, ap, ◌∙◌, pos, Double,
  Bool-cases, Option-cases, inl, inr, lookup, length, split_at_byte, List-cases,
}
use cost_optimized_llm_infer.Types.{
  ChatRequest, ChatResponse, RouteDecision, ProviderHealth, cost_optimized,
}
use cost_optimized_llm_infer.Cache.{put, get, to_size_t}
use cost_optimized_llm_infer.Metrics.{inc_requests, inc_cache_misses}
use cost_optimized_llm_infer.RateLimiter.{check_request}
use cost_optimized_llm_infer.TokenCounter.{count_messages}
use cost_optimized_llm_infer.Chat.Totality.{IsSound, handle_total}
use cost_optimized_llm_infer.Config.{GatewayConfig}
use cost_optimized_llm_infer.Router.{Router, is_down, resolve_model_alias}
use cost_optimized_llm_infer.Router.Ready.{IsServed, route-IsServed}
use cost_optimized_llm_infer.Providers.{Registry, find_provider}
use cost_optimized_llm_infer.Chat.{
  Gateway, World, Calls, Outcome, charged, call_providers, finish, book, serve, look_up,
  admit_request, handle,
}
use cost_optimized_llm_infer.Chat.Apart.{
  SameHealth, route-SameHealth, record_of, Alike, call_providers_apart, chosen_apart, backed_apart,
}
use cost_optimized_llm_infer.Chat.Served.{served_by, serve_found}

module _ {F : Type 0} ⦃d : Double F⦄ where
  module _ (name : Text) where
    -- The health record of the provider, behind a step that ends.
    abbrev Kept : Option (ProviderHealth F) → Option (Gateway F × Outcome F) → Type 0
    Kept h none = Unit
    Kept h (some (g, out)) = record_of name g.router ≡ h

    -- Two runs that are the same, and keep the health record.
    abbrev Spared :
        Option (ProviderHealth F)
        → Option (Gateway F × Outcome F)
        → Option (Gateway F × Outcome F)
        → Type 0
    Spared h run run' = (run ≡ run') × Kept h run

    finish-Kept :
        (fuel : ℕ) (w : World) (cfg : GatewayConfig F) (req : ChatRequest F) (dec : RouteDecision F)
        (answer : ChatResponse F) (g : Gateway F)
        → Kept (record_of name g.router) (finish fuel w cfg req dec answer g)
    unfolding finish book
    finish-Kept fuel w cfg req dec answer g =
        let resp = charged g.costs req answer in
        elim (Option-cases (put w.hash fuel cfg.cache req resp w.tidied w.stored g.cache)) [
          | inl e ↦ rw (e, finish) tt
          | inr (c, e) ↦ rw (e, finish) refl
        ]

    served_by-Kept :
        (fuel : ℕ) (w : World) (cfg : GatewayConfig F) (req : ChatRequest F) (dec : RouteDecision F)
        (g : Gateway F) (out : Router F × Option (ChatResponse F))
        → Kept (record_of name out.0) (served_by fuel w cfg req dec g out)
    served_by-Kept fuel w cfg req dec g (r, none) = refl
    served_by-Kept fuel w cfg req dec g (r, some answer) =
        finish-Kept fuel w cfg req dec answer (record g { router = r })

    module _ (fuel : ℕ) (w : World) (cfg : GatewayConfig F) (reg : Registry) (call call' : Calls F)
        (alike : Alike name call call') (req : ChatRequest F) where
      serve-Spared :
          (dec : RouteDecision F) (g : Gateway F) (r : Router F)
          → is_down name r.health ≡ true
          → IsServed cfg r dec
          → Spared
              (record_of name g.router)
              (serve fuel w cfg reg call req dec g)
              (serve fuel w cfg reg call' req dec g)
      unfolding serve
      serve-Spared dec g r down served = elim (Bool-cases (is_empty dec.provider)) [
        | inl nobody ↦ rw (nobody, serve) (refl, refl)
        | inr named ↦ elim (Option-cases (find_provider dec.provider reg)) [
          | inl missing ↦ rw (named, missing, serve) (refl, refl)
          | inr (p, found) ↦
              let (same, kept) =
                call_providers_apart name w reg call call' alike req dec g.router
                  (chosen_apart name cfg dec r down served named)
                  (backed_apart name cfg dec r down served) in
              let run = serve_found fuel w cfg reg call req dec g p named found in
              let run' = serve_found fuel w cfg reg call' req dec g p named found in
              (
                run ∙ ap (served_by fuel w cfg req dec g) same ∙ sym run',
                subst (Kept (record_of name g.router)) (sym run) (
                    subst
                      (λ h. Kept h (
                        served_by fuel w cfg req dec g
                          (call_providers w reg call req dec g.router)))
                      kept
                      (served_by-Kept fuel w cfg req dec g
                        (call_providers w reg call req dec g.router))),
              )
        ]
      ]

      look_up-Spared :
          (g : Gateway F)
          → is_down name g.router.health ≡ true
          → split_at_byte 58 (resolve_model_alias req.model cfg) ≡ none
          → g.router.strategy ≢ cost_optimized
          → Spared
              (record_of name g.router)
              (look_up fuel w cfg reg call req g)
              (look_up fuel w cfg reg call' req g)
      unfolding look_up
      look_up-Spared g down direct other =
          elim (Option-cases (get w.hash cfg.cache req w.looked_up w.accessed g.cache)) [
            | inl lost ↦ rw (lost, look_up) (refl, tt)
            | inr ((c, cached), read) ↦ elim (Option-cases cached) [
              | inr (resp, e) ↦ rw (read, e, look_up) (refl, refl)
              | inl e ↦
                  let ((dec, r), routed, served) = route-IsServed cfg g.router req direct other in
                  let same : r.health ≡ g.router.health =
                    subst (SameHealth g.router) routed (route-SameHealth req cfg g.router) in
                  let g' = record g {
                    cache = c;
                    metrics = inc_cache_misses g.metrics;
                    router = r;
                  } in
                  rw (read, e, routed, look_up)
                    (subst
                      (λ h.
                        Spared (lookup name h) (serve fuel w cfg reg call req dec g')
                          (serve fuel w cfg reg call' req dec g'))
                      same (serve-Spared dec g' g.router down served))
            ]
          ]

      admit_request-Spared :
          (g : Gateway F)
          → is_down name g.router.health ≡ true
          → split_at_byte 58 (resolve_model_alias req.model cfg) ≡ none
          → g.router.strategy ≢ cost_optimized
          → Spared
              (record_of name g.router)
              (admit_request fuel w cfg reg call req g)
              (admit_request fuel w cfg reg call' req g)
      unfolding admit_request
      admit_request-Spared g down direct other =
          let (l, r) =
            check_request cfg.rate_limit req.api_key (pos (count_messages req.messages)) w.created
              w.checked w.refused g.limiter in
          elim (Bool-cases (is_empty req.api_key)) [
            | inl anonymous ↦ rw (anonymous, admit_request) (look_up-Spared g down direct other)
            | inr keyed ↦ elim (Bool-cases r.allowed) [
              | inl allowed ↦
                  rw (keyed, allowed, admit_request)
                    (look_up-Spared (record g { limiter = l }) down direct other)
              | inr refused ↦ rw (keyed, refused, admit_request) (refl, refl)
            ]
          ]

      handle-Spared :
          (g : Gateway F)
          → is_down name g.router.health ≡ true
          → split_at_byte 58 (resolve_model_alias req.model cfg) ≡ none
          → g.router.strategy ≢ cost_optimized
          → Spared
              (record_of name g.router)
              (handle fuel w cfg reg call req g)
              (handle fuel w cfg reg call' req g)
      unfolding handle
      handle-Spared g down direct other = elim (List-cases req.messages) [
        | inl e ↦ rw (e, handle) (refl, refl)
        | inr (m, ms, e) ↦
            rw (e, handle)
              (admit_request-Spared (record g { metrics = inc_requests g.metrics }) down direct
                other)
      ]

  -- A provider that is marked as unavailable is asked for no request that goes by a strategy other
  -- than `cost`, and so is never marked as available again by one: in a sound gateway, with room
  -- for an entry and fuel beyond the number of entries, the handler ends with the same response and
  -- state whatever that provider would reply, and the health record of the provider is the one
  -- before.
  pub handle-is_down :
      (fuel : ℕ) (w : World) (cfg : GatewayConfig F) (reg : Registry) (name : Text)
      (call call' : Calls F) (req : ChatRequest F) (g : Gateway F)
      → 0 < to_size_t cfg.cache.max_entries
      → IsSound cfg.cache g
      → length g.cache.entries < fuel
      → is_down name g.router.health ≡ true
      → split_at_byte 58 (resolve_model_alias req.model cfg) ≡ none
      → g.router.strategy ≢ cost_optimized
      → Alike name call call'
      → (out : Gateway F × Outcome F) × (handle fuel w cfg reg call req g ≡ some out)
        × (handle fuel w cfg reg call' req g ≡ some out)
        × (lookup name out.0.router.health ≡ lookup name g.router.health)
  handle-is_down fuel w cfg reg name call call' req g room s enough down direct other alike =
      let (out, ended, _) = handle_total fuel w cfg room reg call req g s enough in
      let (same, kept) =
        handle-Spared name fuel w cfg reg call call' alike req g down direct other in
      (out, ended, sym same ∙ ended, subst (Kept name (lookup name g.router.health)) ended kept)
