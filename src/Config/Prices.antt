-- ===== src/Config/Prices.antt =====
-- What loading leaves to the defaults: `pricing` of src/config.cpp is never loaded.
use cost_optimized_llm_infer.Common.{
  List, [], ◌∷◌, Option, Text, ◌≡◌, refl, ◌∙◌, Bool-cases, Option-cases, inl, inr,
}
use cost_optimized_llm_infer.Json.{Json, value}
use cost_optimized_llm_infer.Config.{GatewayConfig}
use cost_optimized_llm_infer.Config.Load.{
  Loader, ◌then_load◌, add_provider, clear_providers, set_alias, parse_provider, assign, section,
  load_server, load_cache, load_rate_limit, load_strategy, push_providers, load_providers,
  push_aliases, load_aliases, load_json,
}

-- A loader that keeps the prices.
abbrev pub KeepsPricing : {F : Type 0} → Loader F → Type 0
KeepsPricing {F} m = (cfg : GatewayConfig F) → (m cfg).0.pricing ≡ cfg.pricing

module _ {F : Type 0} where
  then_load-KeepsPricing :
      (m n : Loader F) → KeepsPricing m → KeepsPricing n → KeepsPricing (m then_load n)
  unfolding ◌then_load◌
  then_load-KeepsPricing m n p q cfg = elim (Bool-cases (m cfg).1) [
    | inl e ↦ rw (e, ◌then_load◌) (q (m cfg).0 ∙ p cfg)
    | inr e ↦ rw (e, ◌then_load◌) (p cfg)
  ]

module _ {F J : Type 0} ⦃j : Json J⦄ where
  assign-KeepsPricing :
      {A : Type 0} (convert : J → Option A) (key : Text) (field : GatewayConfig F → A)
      (put : A → GatewayConfig F → GatewayConfig F) (s : J)
      → ((a : A) (cfg : GatewayConfig F) → (put a cfg).pricing ≡ cfg.pricing)
      → KeepsPricing (assign convert key field put s)
  unfolding assign
  assign-KeepsPricing convert key field put s h cfg =
      elim (Option-cases (value convert key (field cfg) s)) [
        | inl e ↦ rw (e, assign) refl
        | inr (a, e) ↦ rw (e, assign) (h a cfg)
      ]

  section-KeepsPricing :
      (key : Text) (load : J → Loader F) (file : J)
      → ((s : J) → KeepsPricing (load s))
      → KeepsPricing (section key load file)
  unfolding section
  section-KeepsPricing key load file h cfg = elim (Option-cases (j.find key file)) [
    | inl e ↦ rw (e, section) refl
    | inr (s, e) ↦ rw (e, section) (h s cfg)
  ]

  load_server-KeepsPricing : (s : J) → KeepsPricing {F = F} (load_server s)
  unfolding load_server
  load_server-KeepsPricing s =
      then_load-KeepsPricing _ _
        (then_load-KeepsPricing _ _
          (then_load-KeepsPricing _ _
            (then_load-KeepsPricing _ _
              (then_load-KeepsPricing _ _ (assign-KeepsPricing _ _ _ _ s (λ a cfg. refl))
                (assign-KeepsPricing _ _ _ _ s (λ a cfg. refl)))
              (assign-KeepsPricing _ _ _ _ s (λ a cfg. refl)))
            (assign-KeepsPricing _ _ _ _ s (λ a cfg. refl)))
          (assign-KeepsPricing _ _ _ _ s (λ a cfg. refl)))
        (assign-KeepsPricing _ _ _ _ s (λ a cfg. refl))

  load_cache-KeepsPricing : (s : J) → KeepsPricing {F = F} (load_cache s)
  unfolding load_cache
  load_cache-KeepsPricing s =
      then_load-KeepsPricing _ _
        (then_load-KeepsPricing _ _
          (then_load-KeepsPricing _ _ (assign-KeepsPricing _ _ _ _ s (λ a cfg. refl))
            (assign-KeepsPricing _ _ _ _ s (λ a cfg. refl)))
          (assign-KeepsPricing _ _ _ _ s (λ a cfg. refl)))
        (assign-KeepsPricing _ _ _ _ s (λ a cfg. refl))

  load_rate_limit-KeepsPricing : (s : J) → KeepsPricing {F = F} (load_rate_limit s)
  unfolding load_rate_limit
  load_rate_limit-KeepsPricing s =
      then_load-KeepsPricing _ _ (assign-KeepsPricing _ _ _ _ s (λ a cfg. refl))
        (assign-KeepsPricing _ _ _ _ s (λ a cfg. refl))

  load_strategy-KeepsPricing : (s : J) → KeepsPricing {F = F} (load_strategy s)
  unfolding load_strategy
  load_strategy-KeepsPricing s cfg = elim (Option-cases (j.get_text s)) [
    | inl e ↦ rw (e, load_strategy) refl
    | inr (name, e) ↦ rw (e, load_strategy) refl
  ]

  push_providers-KeepsPricing : (xs : List J) → KeepsPricing {F = F} (push_providers xs)
  unfolding push_providers add_provider
  push_providers-KeepsPricing [] cfg = refl
  push_providers-KeepsPricing (x ∷ xs) cfg = elim (Option-cases (parse_provider x)) [
    | inl e ↦ rw (e, push_providers) refl
    | inr (p, e) ↦ rw (e, push_providers) (push_providers-KeepsPricing xs (add_provider p cfg))
  ]

  load_providers-KeepsPricing : (s : J) → KeepsPricing {F = F} (load_providers s)
  unfolding load_providers clear_providers
  load_providers-KeepsPricing s = elim (Bool-cases (j.is_array s)) [
    | inl e ↦
        rw (e, load_providers)
          (then_load-KeepsPricing clear_providers _ (λ cfg. refl)
            (push_providers-KeepsPricing (j.items s)))
    | inr e ↦ rw (e, load_providers) (λ cfg. refl)
  ]

  push_aliases-KeepsPricing : (xs : List (Text × J)) → KeepsPricing {F = F} (push_aliases xs)
  unfolding push_aliases set_alias
  push_aliases-KeepsPricing [] cfg = refl
  push_aliases-KeepsPricing ((alias, target) ∷ rest) cfg = elim (Option-cases (j.get_text target)) [
    | inl e ↦ rw (e, push_aliases) refl
    | inr (t, e) ↦ rw (e, push_aliases) (push_aliases-KeepsPricing rest (set_alias alias t cfg))
  ]

  load_aliases-KeepsPricing : (s : J) → KeepsPricing {F = F} (load_aliases s)
  unfolding load_aliases
  load_aliases-KeepsPricing s = elim (Bool-cases (j.is_object s)) [
    | inl e ↦ rw (e, load_aliases) (push_aliases-KeepsPricing (j.entries s))
    | inr e ↦ rw (e, load_aliases) (λ cfg. refl)
  ]

  pub load_json-KeepsPricing : (file : J) → KeepsPricing {F = F} (load_json file)
  unfolding load_json
  load_json-KeepsPricing file =
      then_load-KeepsPricing _ _
        (then_load-KeepsPricing _ _
          (then_load-KeepsPricing _ _
            (then_load-KeepsPricing _ _
              (then_load-KeepsPricing _ _ (section-KeepsPricing _ _ file load_server-KeepsPricing)
                (section-KeepsPricing _ _ file load_cache-KeepsPricing))
              (section-KeepsPricing _ _ file load_rate_limit-KeepsPricing))
            (section-KeepsPricing _ _ file load_strategy-KeepsPricing))
          (section-KeepsPricing _ _ file load_providers-KeepsPricing))
        (section-KeepsPricing _ _ file load_aliases-KeepsPricing)
