-- ===== src/Router/Ready.antt =====
-- Which providers the strategies of src/router.cpp choose, by their configuration and health.
use cost_optimized_llm_infer.Common.{
  ℕ, zero, suc, ◌<◌, Bool, true, false, not, ◌&&◌, ◌||◌, List, [], ◌∷◌, map, none, some, Text,
  split_at_byte, ◌≡◌, ◌≢◌, ◌⊎◌, inl, inr, refl, Double, length, take, keep, sort, if◌then◌else◌,
  arith, Bool-cases, Option-cases, All, Elem, All-of_Elem, All-get_elem?, keep-Elem, concat-Elem,
  map-Elem, foldl_ind, sort-All,
}
use mathlib.Core.Path.{subst}
use cost_optimized_llm_infer.Types.{
  ChatRequest, RouteDecision, RoutingStrategy, cost_optimized, latency_optimized, round_robin,
  failover, smart,
}
use cost_optimized_llm_infer.Config.{ProviderConfig, GatewayConfig}
use cost_optimized_llm_infer.Router.{Router, has_models, is_down, is_ready, resolve_model_alias}
use cost_optimized_llm_infer.Router.Strategies.{
  Best, index_of, faster, latency_of, route_latency_optimized, route_round_robin, route_failover,
}
use cost_optimized_llm_infer.Router.Scores.{
  Candidate, by_score, candidate, candidates, candidates_of, route_smart,
}
use cost_optimized_llm_infer.Router.Dispatch.{route_by, route}

-- The guard of the loops that look at every model.
pub on_and_up : (on down : Bool) → (not on || down) ≡ false → (on ≡ true) × (down ≡ false)
on_and_up on down e = (ground (arith, e), ground (arith, e))

-- The guard of the loops that look at the first model.
up_of : (a b c : Bool) → (a && b && not c) ≡ true → (a ≡ true) × (c ≡ false)
up_of a b c e = (ground (arith, e), ground (arith, e))

All-names :
    {A : Type 0} (P : Text → Type 0) (f : A → Text) (xs : List A)
    → All (λ x. P (f x)) xs
    → All P (map f xs)
All-names P f [] h = tt
All-names P f (x ∷ xs) h = (h.0, All-names P f xs h.1)

All-take : {A : Type 0} (P : A → Type 0) (n : ℕ) (xs : List A) → All P xs → All P (take n xs)
All-take P zero xs h = tt
All-take P (suc n) [] h = tt
All-take P (suc n) (x ∷ xs) h = (h.0, All-take P n xs h.1)

index_of-lt : (i n : ℕ) → index_of i (suc n) < suc n
unfolding index_of
index_of-lt i n = omega arith

module _ {F : Type 0} where
  -- A provider of that name is configured and enabled, and the name is not known to be down.
  pub record Serves (cfg : GatewayConfig F) (r : Router F) (name : Text) : Type 0 where
    pub by : ProviderConfig
    pub known : Elem by cfg.providers
    pub named : by.name ≡ name
    pub on : by.enabled ≡ true
    pub up : is_down name r.health ≡ false

  -- The provider of a decision serves, or there is none, and so does every fallback.
  pub record IsServed (cfg : GatewayConfig F) (r : Router F) (dec : RouteDecision F) : Type 0 where
    pub chosen : (dec.provider ≡ []) ⊎ Serves cfg r dec.provider
    pub backed : All (Serves cfg r) dec.fallback_chain

  ready_lem :
      (cfg : GatewayConfig F) (r : Router F) (pc : ProviderConfig)
      → Elem pc cfg.providers
      → is_ready r.health pc ≡ true
      → Serves cfg r pc.name
  unfolding is_ready
  ready_lem cfg r pc known h = record {
    by = pc;
    known = known;
    named = refl;
    on = (up_of pc.enabled (has_models pc) (is_down pc.name r.health) h).0;
    up = (up_of pc.enabled (has_models pc) (is_down pc.name r.health) h).1;
  }

  ready-Serves :
      (cfg : GatewayConfig F) (r : Router F)
      → All (λ pc. Serves cfg r pc.name) (keep (is_ready r.health) cfg.providers)
  ready-Serves cfg r = All-of_Elem _ (keep (is_ready r.health) cfg.providers) (λ pc m.
      let (h, known) = keep-Elem (is_ready r.health) cfg.providers pc m in
      ready_lem cfg r pc known h)

module _ {F : Type 0} ⦃d : Double F⦄ (cfg : GatewayConfig F) (r : Router F) where
  open d use {lit}

  Chosen : Best F → Type 0
  Chosen b = (b.provider ≡ []) ⊎ Serves cfg r b.provider

  faster-Chosen :
      (pc : ProviderConfig)
      → Elem pc cfg.providers
      → (b : Best F) → Chosen b
      → Chosen (faster r.health b pc)
  unfolding faster Chosen
  faster-Chosen pc known b h = elim (Bool-cases (not pc.enabled || is_down pc.name r.health)) [
    | inl e ↦ rw e h
    | inr e ↦
        let (on, up) = on_and_up pc.enabled (is_down pc.name r.health) e in
        rw e (elim (Bool-cases (d.lt (latency_of pc.name r.health) b.value && has_models pc)) [
          | inl better ↦
              rw better (inr (record { by = pc; known = known; named = refl; on = on; up = up }))
          | inr worse ↦ rw worse h
        ])
  ]

  route_latency_optimized-IsServed : IsServed cfg r (route_latency_optimized cfg r)
  unfolding route_latency_optimized Chosen
  route_latency_optimized-IsServed = record {
    chosen =
        foldl_ind Chosen (faster r.health)
          (record { provider = []; model = []; value = lit 1_000_000_000 0 }) cfg.providers
          (All-of_Elem _ cfg.providers (λ pc known. faster-Chosen pc known)) (inl refl);
    backed = tt;
  }

  route_failover-IsServed : IsServed cfg r (route_failover cfg r)
  unfolding route_failover
  route_failover-IsServed =
      by_ready (keep (is_ready r.health) cfg.providers) refl (ready-Serves cfg r)
    where
      by_ready :
          (pcs : List ProviderConfig)
          → keep (is_ready r.health) cfg.providers ≡ pcs
          → All (λ pc. Serves cfg r pc.name) pcs
          → IsServed cfg r (route_failover cfg r)
      by_ready [] e h = rw (e, route_failover) (record { chosen = inl refl; backed = tt })
      by_ready (pc ∷ pcs) e h =
          rw (e, route_failover)
            (record { chosen = inr h.0; backed = All-names (Serves cfg r) (λ q. q.name) pcs h.1 })

  route_round_robin-IsServed :
      (out : RouteDecision F × Router F) × (route_round_robin cfg r ≡ some out)
      × IsServed cfg r out.0
  unfolding route_round_robin
  route_round_robin-IsServed =
      by_ready (keep (is_ready r.health) cfg.providers) refl (ready-Serves cfg r)
    where
      by_ready :
          (pcs : List ProviderConfig)
          → keep (is_ready r.health) cfg.providers ≡ pcs
          → All (λ pc. Serves cfg r pc.name) pcs
          → (out : RouteDecision F × Router F) × (route_round_robin cfg r ≡ some out)
            × IsServed cfg r out.0
      by_ready [] e h =
          rw (e, route_round_robin) (_, refl, record { chosen = inl refl; backed = tt })
      by_ready (pc ∷ pcs) e h =
          let (chosen, found, serves) =
            All-get_elem? (λ q. Serves cfg r q.name) (pc ∷ pcs)
              (index_of r.round_robin_idx (length (pc ∷ pcs)))
              (index_of-lt r.round_robin_idx (length pcs)) h in
          rw (e, route_round_robin)
            (rw (found, route_round_robin) (_, refl, record { chosen = inr serves; backed = tt }))

  candidates-Serves : All (λ c. Serves cfg r c.provider) (candidates cfg r)
  unfolding candidates candidates_of candidate
  candidates-Serves = All-of_Elem _ (candidates cfg r) (λ c m.
      let (pc, known, n) = concat-Elem (candidates_of cfg r) c cfg.providers m in
      of_provider pc known c n)
    where
      of_provider :
          (pc : ProviderConfig)
          → Elem pc cfg.providers
          → (c : Candidate F) → Elem c (candidates_of cfg r pc)
          → Serves cfg r c.provider
      of_provider pc known c n = elim (Bool-cases (not pc.enabled || is_down pc.name r.health)) [
        | inl e ↦
            absurd
              (subst (λ b. Elem c (if b then [] else map (candidate cfg r pc.name) pc.models)) e n)
        | inr e ↦
            let (on, up) = on_and_up pc.enabled (is_down pc.name r.health) e in
            let (m, _, made) = map-Elem (candidate cfg r pc.name) c pc.models (
              subst (λ b. Elem c (if b then [] else map (candidate cfg r pc.name) pc.models)) e
                n) in
            subst (λ x. Serves cfg r x.provider) made
              (record { by = pc; known = known; named = refl; on = on; up = up })
      ]

  route_smart-IsServed : IsServed cfg r (route_smart cfg r)
  unfolding route_smart
  route_smart-IsServed =
      by_sorted (sort by_score (candidates cfg r)) refl
        (sort-All by_score (λ c. Serves cfg r c.provider) (candidates cfg r) candidates-Serves)
    where
      by_sorted :
          (cs : List (Candidate F))
          → sort by_score (candidates cfg r) ≡ cs
          → All (λ c. Serves cfg r c.provider) cs
          → IsServed cfg r (route_smart cfg r)
      by_sorted [] e h = rw (e, route_smart) (record { chosen = inl refl; backed = tt })
      by_sorted (c ∷ cs) e h =
          rw (e, route_smart)
            (record {
              chosen = inr h.0;
              backed =
                  All-names (Serves cfg r) (λ x. x.provider) (take 3 cs)
                    (All-take (λ x. Serves cfg r x.provider) 3 cs h.1);
            })

  route_by-IsServed :
      (s : RoutingStrategy)
      → s ≢ cost_optimized
      → (out : RouteDecision F × Router F) × (route_by s cfg r ≡ some out) × IsServed cfg r out.0
  unfolding route_by
  route_by-IsServed cost_optimized other = absurd (other refl)
  route_by-IsServed latency_optimized other = (_, refl, route_latency_optimized-IsServed)
  route_by-IsServed round_robin other = route_round_robin-IsServed
  route_by-IsServed failover other = (_, refl, route_failover-IsServed)
  route_by-IsServed smart other = (_, refl, route_smart-IsServed)

  -- Without a direct route and unless the strategy is `cost`, a decision is made, its provider
  -- serves or there is none, and every fallback serves.
  pub route-IsServed :
      (req : ChatRequest F)
      → split_at_byte 58 (resolve_model_alias req.model cfg) ≡ none
      → r.strategy ≢ cost_optimized
      → (out : RouteDecision F × Router F) × (route req cfg r ≡ some out) × IsServed cfg r out.0
  unfolding route
  route-IsServed req direct other = rw (direct, route) (route_by-IsServed r.strategy other)

  -- A decision is always made.
  pub route_total :
      (req : ChatRequest F) → (out : RouteDecision F × Router F) × (route req cfg r ≡ some out)
  unfolding route route_by
  route_total req = elim (Option-cases (split_at_byte 58 (resolve_model_alias req.model cfg))) [
    | inl direct ↦ rw (direct, route) (by_strategy r.strategy)
    | inr (x, named) ↦ rw (named, route) (_, refl)
  ]
    where
      by_strategy :
          (s : RoutingStrategy) → (out : RouteDecision F × Router F) × (route_by s cfg r ≡ some out)
      by_strategy cost_optimized = (_, refl)
      by_strategy latency_optimized = (_, refl)
      by_strategy round_robin = let (out, made, _) = route_round_robin-IsServed in (out, made)
      by_strategy failover = (_, refl)
      by_strategy smart = (_, refl)
