-- ===== src/Chat/Apart.antt =====
-- The routing and the calls of a request, as far as one provider is concerned that is marked as
-- unavailable.
use cost_optimized_llm_infer.Common.{
  ℕ, suc, true, false, List, [], ◌∷◌, Option, none, some, Text, is_empty, ◌≡◌, ◌≢◌, refl, sym, ap,
  ◌∙◌, Double, Option-cases, inl, inr, All, All-map_of, lookup, lookup-insert_ne, length,
  split_at_byte, get_elem?, keep, List-cases,
}
use cost_optimized_llm_infer.Types.{
  ChatRequest, RouteDecision, RoutingStrategy, ProviderHealth, cost_optimized, latency_optimized,
  round_robin, failover, smart,
}
use cost_optimized_llm_infer.Config.{ProviderConfig, GatewayConfig}
use cost_optimized_llm_infer.Router.{
  Router, is_down, is_ready, resolve_model_alias, report_success, report_failure,
}
use cost_optimized_llm_infer.Router.Strategies.{index_of, route_round_robin}
use cost_optimized_llm_infer.Router.Dispatch.{route, route_by}
use cost_optimized_llm_infer.Router.Ready.{Serves, IsServed}
use cost_optimized_llm_infer.Providers.{Registry, find_provider, supported_models}
use cost_optimized_llm_infer.Chat.Answers.{Reply-cases}
use cost_optimized_llm_infer.Chat.{World, Calls, try_fallbacks, call_providers}

module _ {F : Type 0} ⦃d : Double F⦄ where
  -- A router with the health records of another, if a decision is made.
  abbrev pub SameHealth : Router F → Option (RouteDecision F × Router F) → Type 0
  SameHealth r none = Unit
  SameHealth r (some (dec, r')) = r'.health ≡ r.health

  route_by-SameHealth :
      (s : RoutingStrategy) (cfg : GatewayConfig F) (r : Router F) → SameHealth r (route_by s cfg r)
  unfolding route_by route_round_robin
  route_by-SameHealth cost_optimized cfg r = refl
  route_by-SameHealth latency_optimized cfg r = refl
  route_by-SameHealth round_robin cfg r = by_ready (keep (is_ready r.health) cfg.providers) refl
    where
      by_ready :
          (pcs : List ProviderConfig)
          → keep (is_ready r.health) cfg.providers ≡ pcs
          → SameHealth r (route_round_robin cfg r)
      by_ready [] e = rw (e, route_round_robin) refl
      by_ready (pc ∷ pcs) e =
          rw (e, route_round_robin)
            (elim (Option-cases
              (get_elem? (pc ∷ pcs) (index_of r.round_robin_idx (length (pc ∷ pcs))))) [
                | inl out ↦ rw out tt
                | inr (x, found) ↦ rw found refl
              ])
  route_by-SameHealth failover cfg r = refl
  route_by-SameHealth smart cfg r = refl

  pub route-SameHealth :
      (req : ChatRequest F) (cfg : GatewayConfig F) (r : Router F) → SameHealth r (route req cfg r)
  unfolding route
  route-SameHealth req cfg r =
      elim (Option-cases (split_at_byte 58 (resolve_model_alias req.model cfg))) [
        | inl e ↦ rw (e, route) (route_by-SameHealth r.strategy cfg r)
        | inr (x, e) ↦ rw (e, route) refl
      ]

  module _ (name : Text) where
    abbrev pub record_of : Router F → Option (ProviderHealth F)
    record_of r = lookup name r.health

    report_failure_apart :
        (now : ℕ) (p : Text) (r : Router F)
        → p ≢ name
        → record_of (report_failure now p r) ≡ record_of r
    unfolding report_failure
    report_failure_apart now p r other = lookup-insert_ne name p _ r.health other

    report_success_apart :
        (now : ℕ) (p : Text) (ms : F) (r : Router F)
        → p ≢ name
        → record_of (report_success now p ms r) ≡ record_of r
    unfolding report_success
    report_success_apart now p ms r other = lookup-insert_ne name p _ r.health other

    -- A provider that serves is not one that is down.
    Serves_apart :
        (cfg : GatewayConfig F) (r : Router F) (p : Text)
        → is_down name r.health ≡ true
        → Serves cfg r p
        → p ≢ name
    Serves_apart cfg r p down s same = absurd (cc (ap (λ i. is_down i r.health) same, s.up, down))

    -- Replies that differ on calls of one provider at most.
    abbrev pub Alike : Calls F → Calls F → Type 0
    Alike call call' =
        (i : ℕ) (other : Text) (req : ChatRequest F)
        → other ≢ name
        → call i other req ≡ call' i other req

    module _ (w : World) (reg : Registry) (call call' : Calls F) (alike : Alike call call') where
      try_fallbacks_apart :
          (i : ℕ) (chain : List Text) (req : ChatRequest F) (r : Router F)
          → All (λ p. p ≢ name) chain
          → (try_fallbacks w reg call i chain req r ≡ try_fallbacks w reg call' i chain req r)
            × (record_of (try_fallbacks w reg call i chain req r).0 ≡ record_of r)
      unfolding try_fallbacks
      try_fallbacks_apart i [] req r apart = (refl, refl)
      try_fallbacks_apart i (p ∷ chain) req r apart = elim (Option-cases (find_provider p reg)) [
        | inl missing ↦ rw (missing, try_fallbacks) (try_fallbacks_apart i chain req r apart.1)
        | inr (x, found) ↦ elim (List-cases (supported_models x.kind)) [
          | inl none_left ↦
              rw (found, none_left, try_fallbacks) (try_fallbacks_apart i chain req r apart.1)
          | inr (m, ms, models) ↦
              let req' = record req { model = m } in
              elim (Reply-cases (call i p req')) [
                | inl (resp, ok) ↦
                    rw (found, models, sym (alike i p req' apart.0) ∙ ok, ok, try_fallbacks)
                      (refl, report_success_apart (w.reported i) p resp.latency_ms r apart.0)
                | inr (e, bad) ↦
                    rw (found, models, sym (alike i p req' apart.0) ∙ bad, bad, try_fallbacks)
                      (let (same, kept) =
                          try_fallbacks_apart (suc i) chain req' (report_failure (w.reported i) p r)
                            apart.1 in
                        (same, kept ∙ report_failure_apart (w.reported i) p r apart.0))
              ]
        ]
      ]

      pub call_providers_apart :
          (req : ChatRequest F) (dec : RouteDecision F) (r : Router F)
          → dec.provider ≢ name
          → All (λ p. p ≢ name) dec.fallback_chain
          → (call_providers w reg call req dec r ≡ call_providers w reg call' req dec r)
            × (record_of (call_providers w reg call req dec r).0 ≡ record_of r)
      unfolding call_providers
      call_providers_apart req dec r other apart =
          let req' = record req { model = dec.model } in
          elim (Reply-cases (call 0 dec.provider req')) [
            | inl (resp, ok) ↦
                rw (sym (alike 0 dec.provider req' other) ∙ ok, ok, call_providers)
                  (refl, report_success_apart (w.reported 0) dec.provider resp.latency_ms r other)
            | inr (e, bad) ↦
                rw (sym (alike 0 dec.provider req' other) ∙ bad, bad, call_providers)
                  (let (same, kept) =
                      try_fallbacks_apart 1 dec.fallback_chain req'
                        (report_failure (w.reported 0) dec.provider r) apart in
                    (same, kept ∙ report_failure_apart (w.reported 0) dec.provider r other))
          ]

    pub chosen_apart :
        (cfg : GatewayConfig F) (dec : RouteDecision F) (r : Router F)
        → is_down name r.health ≡ true
        → IsServed cfg r dec
        → is_empty dec.provider ≡ false
        → dec.provider ≢ name
    unfolding is_empty
    chosen_apart cfg dec r down served named = elim served.chosen [
      | inl none_chosen ↦ absurd (cc (ap is_empty none_chosen, named))
      | inr serves ↦ Serves_apart cfg r dec.provider down serves
    ]

    pub backed_apart :
        (cfg : GatewayConfig F) (dec : RouteDecision F) (r : Router F)
        → is_down name r.health ≡ true
        → IsServed cfg r dec
        → All (λ p. p ≢ name) dec.fallback_chain
    backed_apart cfg dec r down served =
        All-map_of (Serves cfg r) (λ p. p ≢ name) dec.fallback_chain
          (λ p s. Serves_apart cfg r p down s) served.backed
