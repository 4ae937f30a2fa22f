-- ===== src/Router/Quickest.antt =====
-- The provider that the latency strategy of src/router.cpp chooses, against the others.
use cost_optimized_llm_infer.Common.{
  Bool, true, false, not, ◌&&◌, ◌||◌, List, [], ◌∷◌, foldl, ◌≡◌, ◌⊎◌, inl, inr, refl, sym, Double,
  ◌≺◌, IsOrdered, arith, Bool-cases, Elem, All, All-of_Elem, All-at,
}
use mathlib.Core.Path.{subst}
use cost_optimized_llm_infer.Config.{ProviderConfig, GatewayConfig}
use cost_optimized_llm_infer.Router.Ready.{on_and_up}
use cost_optimized_llm_infer.Router.{Router, first_model, has_models, is_down}
use cost_optimized_llm_infer.Router.Strategies.{Best, latency_of, faster, route_latency_optimized}

both : (a b : Bool) → (a && b) ≡ true → (a ≡ true) × (b ≡ true)
both a b e = (ground (arith, e), ground (arith, e))

module _ {F : Type 0} ⦃d : Double F⦄ (o : IsOrdered F) (cfg : GatewayConfig F) (r : Router F) where
  open d use {lit}

  -- A provider that takes part: it is enabled, has a model and is not known to be down.
  pub record TakesPart (pc : ProviderConfig) : Type 0 where
    pub known : Elem pc cfg.providers
    pub on : pc.enabled ≡ true
    pub up : is_down pc.name r.health ≡ false
    pub equipped : has_models pc ≡ true

  abbrev pub speed : ProviderConfig → F
  speed pc = latency_of pc.name r.health

  -- The best choice so far is the first, or one that takes part.
  abbrev Known : Best F → Best F → Type 0
  Known start b =
      (b ≡ start)
      ⊎ ((pc : ProviderConfig) × TakesPart pc
          × (b.provider ≡ pc.name)
          × (b.model ≡ first_model pc.models)
          × (b.value ≡ speed pc))

  faster_lem :
      (start b : Best F) (pc : ProviderConfig)
      → Elem pc cfg.providers
      → Known start b
      → let b' = faster r.health b pc in
        Known start b'
        × ((x : F) → ¬ (x ≺ b.value) → ¬ (x ≺ b'.value))
        × (TakesPart pc → ¬ (speed pc ≺ b'.value))
  unfolding faster
  faster_lem start b pc known h = elim (Bool-cases (not pc.enabled || is_down pc.name r.health)) [
    | inl out ↦ rw out (h, λ x n. n, λ t. absurd (ground (arith, t.on, t.up, out)))
    | inr takes ↦
        rw takes (elim (Bool-cases (d.lt (latency_of pc.name r.health) b.value && has_models pc)) [
          | inl better ↦
              let (on, up) = on_and_up pc.enabled (is_down pc.name r.health) takes in
              let (quicker, equipped) = both (d.lt (speed pc) b.value) (has_models pc) better in
              rw better (
                inr (
                  pc,
                  record { known = known; on = on; up = up; equipped = equipped },
                  refl,
                  refl,
                  refl,
                ),
                λ x n less. n (o.lt_trans x (speed pc) b.value less quicker),
                λ t. o.lt_irrefl (speed pc),
              )
          | inr worse ↦
              rw worse (h, λ x n. n, λ t less. absurd (ground (arith, t.equipped, less, worse)))
        ])
  ]

  fold_lem :
      (start : Best F) (pcs : List ProviderConfig) (b : Best F)
      → All (λ pc. Elem pc cfg.providers) pcs
      → Known start b
      → let b' = foldl (faster r.health) b pcs in
        Known start b'
        × ((x : F) → ¬ (x ≺ b.value) → ¬ (x ≺ b'.value))
        × All (λ pc. TakesPart pc → ¬ (speed pc ≺ b'.value)) pcs
  fold_lem start [] b known h = (h, λ x n. n, tt)
  fold_lem start (pc ∷ pcs) b known h =
      let (now, down, here) = faster_lem start b pc known.0 h in
      let (later, down', rest) = fold_lem start pcs (faster r.health b pc) known.1 now in
      (later, λ x n. down' x (down x n), (λ t. down' (speed pc) (here t), rest))

  -- The comparisons of `double` have the laws of IEEE 754. If some provider takes part whose
  -- latency is below the bound that the scan starts with, the latency strategy chooses a provider
  -- that takes part, with its first model, and no other that takes part is faster.
  pub route_latency_optimized-quickest :
      (some_pc other : ProviderConfig)
      → TakesPart some_pc
      → speed some_pc ≺ lit 1_000_000_000 0
      → TakesPart other
      → let dec = route_latency_optimized cfg r in
        (pc : ProviderConfig) × TakesPart pc
        × (dec.provider ≡ pc.name)
        × (dec.model ≡ first_model pc.models)
        × ¬ (speed other ≺ speed pc)
  unfolding route_latency_optimized
  route_latency_optimized-quickest some_pc other takes quick t =
      let start : Best F = record { provider = []; model = []; value = lit 1_000_000_000 0 } in
      let (end, _, beaten) =
        fold_lem start cfg.providers start (All-of_Elem _ cfg.providers (λ pc m. m)) (inl refl) in
      elim end [
        | inl same ↦ absurd (
            All-at _ cfg.providers some_pc takes.known beaten takes
              (subst (λ (x : Best F). speed some_pc ≺ x.value) (sym same) quick))
        | inr (pc, part, named, model, value) ↦ (
          pc,
          part,
          named,
          model,
          λ less.
              All-at _ cfg.providers other t.known beaten t
                (subst (λ v. speed other ≺ v) (sym value) less),
        )
      ]
