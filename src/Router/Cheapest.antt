-- ===== src/Router/Cheapest.antt =====
-- The scan of `route_cost_optimized`, against the offers of the configuration.
use cost_optimized_llm_infer.Common.{
  true, false, not, ◌||◌, List, [], ◌∷◌, foldl, some, Text, is_empty, ◌≡◌, ◌≢◌, ◌⊎◌, inl, inr, refl,
  ap, ◌∙◌, Dict, lookup, Double, ◌≺◌, IsOrdered, arith, Bool-cases, Option-cases, All, Elem,
  All-of_Elem, All-at, foldl_ind,
}
use cost_optimized_llm_infer.Types.{ModelPricing}
use cost_optimized_llm_infer.Config.{ProviderConfig, GatewayConfig}
use cost_optimized_llm_infer.CostTracker.{price_key}
use cost_optimized_llm_infer.Router.{Router, is_down}
use cost_optimized_llm_infer.Router.Strategies.{
  Best, total_price, cheaper, cheaper_of, cheapest, first_enabled, route_cost_optimized,
}

module _ {F : Type 0} where
  -- A provider that is enabled and not known to be down offers a model that has a price.
  pub record IsOffer (cfg : GatewayConfig F) (r : Router F) (name model : Text) (p : ModelPricing F)
      : Type 0 where
    pub by : ProviderConfig
    pub known : Elem by cfg.providers
    pub named : by.name ≡ name
    pub on : by.enabled ≡ true
    pub up : is_down by.name r.health ≡ false
    pub serves : Elem model by.models
    pub price : lookup (price_key name model) cfg.pricing ≡ some p

module _ {F : Type 0} ⦃d : Double F⦄ (o : IsOrdered F) where
  open d use {lit}

  -- A bound on the best value is kept by the scan.
  NotBelow : F → Best F → Type 0
  NotBelow x b = ¬ (x ≺ b.value)

  cheaper-NotBelow :
      (pricing : Dict (ModelPricing F)) (x : F) (name : Text) (b : Best F) (m : Text)
      → NotBelow x b
      → NotBelow x (cheaper pricing name b m)
  unfolding cheaper NotBelow
  cheaper-NotBelow pricing x name b m h = elim (Option-cases (lookup (price_key name m) pricing)) [
    | inl e ↦ rw (e, cheaper) h
    | inr (p, e) ↦ elim (Bool-cases (d.lt (total_price p) b.value)) [
      | inl less ↦ rw (e, cheaper) (rw less (λ l. h (o.lt_trans x (total_price p) b.value l less)))
      | inr no_less ↦ rw (e, cheaper) (rw no_less h)
    ]
  ]

  cheaper-price :
      (pricing : Dict (ModelPricing F)) (name : Text) (b : Best F) (m : Text) (p : ModelPricing F)
      → lookup (price_key name m) pricing ≡ some p
      → NotBelow (total_price p) (cheaper pricing name b m)
  unfolding cheaper NotBelow
  cheaper-price pricing name b m p e = elim (Bool-cases (d.lt (total_price p) b.value)) [
    | inl less ↦ rw (e, cheaper) (rw less (o.lt_irrefl (total_price p)))
    | inr no_less ↦ rw (e, cheaper) (rw no_less (λ l. cc))
  ]

  scan-NotBelow :
      (pricing : Dict (ModelPricing F)) (x : F) (name : Text) (b : Best F) (ms : List Text)
      → NotBelow x b
      → NotBelow x (foldl (cheaper pricing name) b ms)
  scan-NotBelow pricing x name b [] h = h
  scan-NotBelow pricing x name b (m ∷ ms) h =
      scan-NotBelow pricing x name (cheaper pricing name b m) ms
        (cheaper-NotBelow pricing x name b m h)

  scan-price :
      (pricing : Dict (ModelPricing F)) (name : Text) (b : Best F) (ms : List Text) (m : Text)
      (p : ModelPricing F)
      → Elem m ms
      → lookup (price_key name m) pricing ≡ some p
      → NotBelow (total_price p) (foldl (cheaper pricing name) b ms)
  scan-price pricing name b [] m p n found = absurd n
  scan-price pricing name b (y ∷ ms) m p (inl e) found =
      scan-NotBelow pricing (total_price p) name (cheaper pricing name b y) ms
        (cheaper-price pricing name b y p (ap (λ z. lookup (price_key name z) pricing) e ∙ found))
  scan-price pricing name b (y ∷ ms) m p (inr n) found =
      scan-price pricing name (cheaper pricing name b y) ms m p n found

  cheaper_of-NotBelow :
      (cfg : GatewayConfig F) (r : Router F) (x : F) (b : Best F) (pc : ProviderConfig)
      → NotBelow x b
      → NotBelow x (cheaper_of cfg.pricing r.health b pc)
  unfolding cheaper_of
  cheaper_of-NotBelow cfg r x b pc h =
      elim (Bool-cases (not pc.enabled || is_down pc.name r.health)) [
        | inl e ↦ rw e h
        | inr e ↦ rw e (scan-NotBelow cfg.pricing x pc.name b pc.models h)
      ]

  providers-NotBelow :
      (cfg : GatewayConfig F) (r : Router F) (x : F) (b : Best F) (pcs : List ProviderConfig)
      → NotBelow x b
      → NotBelow x (foldl (cheaper_of cfg.pricing r.health) b pcs)
  providers-NotBelow cfg r x b [] h = h
  providers-NotBelow cfg r x b (pc ∷ pcs) h =
      providers-NotBelow cfg r x (cheaper_of cfg.pricing r.health b pc) pcs
        (cheaper_of-NotBelow cfg r x b pc h)

  providers-price :
      (cfg : GatewayConfig F) (r : Router F) (b : Best F) (pcs : List ProviderConfig)
      (name m : Text) (p : ModelPricing F) (i : IsOffer cfg r name m p)
      → Elem i.by pcs
      → NotBelow (total_price p) (foldl (cheaper_of cfg.pricing r.health) b pcs)
  unfolding cheaper_of
  providers-price cfg r b [] name m p i n = absurd n
  providers-price cfg r b (pc ∷ pcs) name m p i (inl e) =
      providers-NotBelow cfg r (total_price p) (cheaper_of cfg.pricing r.health b pc) pcs (
        rw (e, i.on, i.up)
          (scan-price cfg.pricing i.by.name b i.by.models m p i.serves
            (ap (λ n. lookup (price_key n m) cfg.pricing) i.named ∙ i.price)))
  providers-price cfg r b (pc ∷ pcs) name m p i (inr n) =
      providers-price cfg r (cheaper_of cfg.pricing r.health b pc) pcs name m p i n

  start : Best F
  start = record { provider = []; model = []; value = lit 1_000_000_000 0 }

  -- What the scan has found: nothing yet, or an offer at its price.
  IsFound : GatewayConfig F → Router F → Best F → Type 0
  IsFound cfg r b =
      (b ≡ start)
      ⊎ ((p : ModelPricing F) × IsOffer cfg r b.provider b.model p × (b.value ≡ total_price p))

  cheaper-IsFound :
      (cfg : GatewayConfig F) (r : Router F) (pc : ProviderConfig)
      → Elem pc cfg.providers
      → pc.enabled ≡ true
      → is_down pc.name r.health ≡ false
      → (m : Text) → Elem m pc.models
      → (b : Best F) → IsFound cfg r b
      → IsFound cfg r (cheaper cfg.pricing pc.name b m)
  unfolding cheaper IsFound
  cheaper-IsFound cfg r pc known on up m serves b h =
      elim (Option-cases (lookup (price_key pc.name m) cfg.pricing)) [
        | inl e ↦ rw (e, cheaper) h
        | inr (p, e) ↦ elim (Bool-cases (d.lt (total_price p) b.value)) [
          | inl less ↦
              rw (e, cheaper)
                (rw less (
                  inr (
                    p,
                    record {
                      by = pc;
                      known = known;
                      named = refl;
                      on = on;
                      up = up;
                      serves = serves;
                      price = e;
                    },
                    refl,
                  )))
          | inr no_less ↦ rw (e, cheaper) (rw no_less h)
        ]
      ]

  cheaper_of-IsFound :
      (cfg : GatewayConfig F) (r : Router F) (pc : ProviderConfig)
      → Elem pc cfg.providers
      → (b : Best F) → IsFound cfg r b
      → IsFound cfg r (cheaper_of cfg.pricing r.health b pc)
  unfolding cheaper_of
  cheaper_of-IsFound cfg r pc known b h =
      elim (Bool-cases (not pc.enabled || is_down pc.name r.health)) [
        | inl e ↦ rw e h
        | inr e ↦
            let on : pc.enabled ≡ true = ground (arith, e) in
            let up : is_down pc.name r.health ≡ false = ground (arith, e, on) in
            rw e (
              foldl_ind (IsFound cfg r) (cheaper cfg.pricing pc.name) b pc.models
                (All-of_Elem _ pc.models
                  (λ m n c found. cheaper-IsFound cfg r pc known on up m n c found))
                h)
      ]

  cheapest-IsFound : (cfg : GatewayConfig F) (r : Router F) → IsFound cfg r (cheapest cfg r)
  unfolding cheapest IsFound start
  cheapest-IsFound cfg r =
      foldl_ind (IsFound cfg r) (cheaper_of cfg.pricing r.health) start cfg.providers
        (All-of_Elem _ cfg.providers (λ pc known. cheaper_of-IsFound cfg r pc known)) (inl refl)

  first_enabled-value :
      (b : Best F) (pcs : List ProviderConfig) → (first_enabled b pcs).value ≡ b.value
  unfolding first_enabled
  first_enabled-value b [] = refl
  first_enabled-value b (pc ∷ pcs) = ground (arith, first_enabled-value b pcs)

  is_empty-false : (t : Text) → t ≢ [] → is_empty t ≡ false
  unfolding is_empty
  is_empty-false [] ne = absurd (ne refl)
  is_empty-false (x ∷ xs) ne = refl

  -- The comparisons of `double` have the laws of IEEE 754. Every provider has a name. Then for any
  -- offer below 1e9 the decision is an offer at its price, and not one that costs more.
  pub route_cost_optimized-cheapest :
      (cfg : GatewayConfig F) (r : Router F)
      → All (λ pc. pc.name ≢ []) cfg.providers
      → (name model : Text) (p : ModelPricing F) → IsOffer cfg r name model p
      → total_price p ≺ lit 1_000_000_000 0
      → let dec = route_cost_optimized cfg r in
        (q : ModelPricing F) × IsOffer cfg r dec.provider dec.model q
        × (dec.estimated_cost ≡ total_price q)
        × ¬ (total_price p ≺ dec.estimated_cost)
  unfolding route_cost_optimized NotBelow cheapest start IsFound
  route_cost_optimized-cheapest cfg r names name model p i below =
      let least : ¬ (total_price p ≺ (cheapest cfg r).value) =
        providers-price cfg r start cfg.providers name model p i i.known in
      elim (cheapest-IsFound cfg r) [
        | inl e ↦ absurd (least (rw e below))
        | inr (q, found, value) ↦
            let named = is_empty-false (cheapest cfg r).provider (λ e.
              All-at (λ pc. pc.name ≢ []) cfg.providers found.by found.known names
                (found.named ∙ e)) in
            rw named (q, found, value, least)
      ]
