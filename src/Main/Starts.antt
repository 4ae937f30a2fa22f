-- ===== src/Main/Starts.antt =====
-- What the service starts with.
use cost_optimized_llm_infer.Common.{
  Bool, true, false, [], ◌⊎◌, inl, inr, Option, none, some, ℕ, ◌≡◌, refl, ap, sym, ◌∙◌, Double,
  Bool-cases, Option-cases, Text, codes,
}
use mathlib.Core.Option.{some-injective, none-ne-some}
use cost_optimized_llm_infer.Json.{Json}
use cost_optimized_llm_infer.Config.{GatewayConfig}
use cost_optimized_llm_infer.Config.Defaults.{default_pricing, initial}
use cost_optimized_llm_infer.Config.Environment.{
  Env, override_server, override_key, override_keys, apply_env_overrides, load_from_env,
}
use cost_optimized_llm_infer.Config.Load.{load_json, load_from_file}
use cost_optimized_llm_infer.Config.Prices.{load_json-KeepsPricing}
use cost_optimized_llm_infer.Providers.{initialize}
use cost_optimized_llm_infer.Main.{configure, set_up}

module _ {F : Type 0} where
  apply_env_overrides_lem :
      (env : Env) (cfg cfg' : GatewayConfig F)
      → apply_env_overrides env cfg ≡ some cfg'
      → (cfg'.pricing ≡ cfg.pricing) × (cfg'.providers ≡ override_keys env cfg.providers)
  unfolding apply_env_overrides
  apply_env_overrides_lem env cfg cfg' e = elim (Option-cases (override_server env cfg.server)) [
    | inl failed ↦ absurd (none-ne-some cfg' (sym (rw (failed, apply_env_overrides) refl) ∙ e))
    | inr (server, found) ↦
        let whole = record cfg { server = server; providers = override_keys env cfg.providers } in
        let made : apply_env_overrides env cfg ≡ some whole =
          rw (found, apply_env_overrides) refl in
        let same = some-injective whole cfg' (sym made ∙ e) in
        (
          sym (ap (λ (c : GatewayConfig F). c.pricing) same),
          sym (ap (λ (c : GatewayConfig F). c.providers) same),
        )
  ]

override_key-nil : (v : Option Text) (name : Text) → override_key v name [] ≡ []
unfolding override_key
override_key-nil none name = refl
override_key-nil (some key) name = refl

override_keys-nil : (env : Env) → override_keys env [] ≡ []
unfolding override_keys
override_keys-nil env =
    rw
      (
        override_key-nil (env (codes "OPENAI_API_KEY")) (codes "openai"),
        override_key-nil (env (codes "ANTHROPIC_API_KEY")) (codes "anthropic"),
        override_key-nil (env (codes "TOGETHER_API_KEY")) (codes "together"),
        override_key-nil (env (codes "GROQ_API_KEY")) (codes "groq"),
      )
      refl

module _ {F J : Type 0} ⦃d : Double F⦄ ⦃j : Json J⦄ where
  -- A configuration behind the file, and behind the environment.
  configure-cases :
      (file : Option (Option J)) (env : Env) (cfg : GatewayConfig F)
      → configure file env ≡ some cfg
      → (loaded : GatewayConfig F × Bool) × (load_from_file file env initial ≡ some loaded)
        × (apply_env_overrides env loaded.0 ≡ some cfg)
  unfolding configure load_from_env
  configure-cases file env cfg e = elim (Option-cases (load_from_file file env (initial {F = F}))) [
    | inl failed ↦ absurd (none-ne-some cfg (sym (rw (failed, configure) refl) ∙ e))
    | inr (loaded, found) ↦ (loaded, found, sym (rw (found, configure, load_from_env) refl) ∙ e)
  ]

  load_from_file-pricing :
      (file : Option (Option J)) (env : Env) (cfg : GatewayConfig F) (out : GatewayConfig F × Bool)
      → load_from_file file env cfg ≡ some out
      → out.0.pricing ≡ cfg.pricing
  unfolding load_from_file
  load_from_file-pricing none env cfg out e = elim (Option-cases (apply_env_overrides env cfg)) [
    | inl failed ↦ absurd (none-ne-some out (sym (rw (failed, load_from_file) refl) ∙ e))
    | inr (c, found) ↦
        let same = some-injective (c, false) out (sym (rw (found, load_from_file) refl) ∙ e) in
        ap (λ (o : GatewayConfig F × Bool). o.0.pricing) (sym same)
        ∙ (apply_env_overrides_lem env cfg c found).0
  ]
  load_from_file-pricing (some none) env cfg out e =
      ap (λ (o : GatewayConfig F × Bool). o.0.pricing) (sym (some-injective (cfg, false) out e))
  load_from_file-pricing (some (some body)) env cfg out e =
      let kept = load_json-KeepsPricing body cfg in
      elim (Bool-cases (load_json body cfg).1) [
        | inr stopped ↦
            let same =
              some-injective ((load_json body cfg).0, false) out
                (sym (rw (stopped, load_from_file) refl) ∙ e) in
            ap (λ (o : GatewayConfig F × Bool). o.0.pricing) (sym same) ∙ kept
        | inl whole ↦ elim (Option-cases (apply_env_overrides env (load_json body cfg).0)) [
          | inl failed ↦
              absurd (none-ne-some out (sym (rw (whole, failed, load_from_file) refl) ∙ e))
          | inr (c, found) ↦
              let same =
                some-injective (c, true) out (sym (rw (whole, found, load_from_file) refl) ∙ e) in
              ap (λ (o : GatewayConfig F × Bool). o.0.pricing) (sym same)
              ∙ (apply_env_overrides_lem env (load_json body cfg).0 c found).0
              ∙ kept
        ]
      ]

  -- Whatever the file and the environment say, the service charges the built-in prices.
  pub configure-pricing :
      (file : Option (Option J)) (env : Env) (cfg : GatewayConfig F)
      → configure file env ≡ some cfg
      → cfg.pricing ≡ default_pricing
  unfolding initial
  configure-pricing file env cfg e =
      let (loaded, found, after) = configure-cases file env cfg e in
      (apply_env_overrides_lem env loaded.0 cfg after).0
      ∙ load_from_file-pricing file env initial loaded found

  unread_file :
      (file : Option (Option J)) (env : Env) (loaded : GatewayConfig F × Bool)
      → (file ≡ none) ⊎ (file ≡ some none)
      → load_from_file file env initial ≡ some loaded
      → loaded.0.providers ≡ []
  unfolding load_from_file initial
  unread_file none env loaded absent e =
      elim (Option-cases (apply_env_overrides env (initial {F = F}))) [
        | inl failed ↦ absurd (none-ne-some loaded (sym (rw (failed, load_from_file) refl) ∙ e))
        | inr (c, found) ↦
            let same =
              some-injective (c, false) loaded (sym (rw (found, load_from_file) refl) ∙ e) in
            ap (λ (o : GatewayConfig F × Bool). o.0.providers) (sym same)
            ∙ (apply_env_overrides_lem env initial c found).1
            ∙ override_keys-nil env
      ]
  unread_file (some none) env loaded absent e =
      ap (λ (o : GatewayConfig F × Bool). o.0.providers)
        (sym (some-injective (initial, false) loaded e))
  unread_file (some (some body)) env loaded (inl e') e = absurd cc
  unread_file (some (some body)) env loaded (inr e') e = absurd cc

  -- Without a file that can be opened and parsed there are no providers, whatever keys the
  -- environment has: if the configuration is loaded, the registry that the service starts with is
  -- empty.
  pub configure-no_providers :
      (file : Option (Option J)) (env : Env) (now : ℕ) (cfg : GatewayConfig F)
      → (file ≡ none) ⊎ (file ≡ some none)
      → configure file env ≡ some cfg
      → (cfg.providers ≡ []) × ((set_up now cfg).registry ≡ [])
  unfolding set_up initialize
  configure-no_providers file env now cfg absent e =
      let (loaded, found, after) = configure-cases file env cfg e in
      let nobody =
        (apply_env_overrides_lem env loaded.0 cfg after).1
        ∙ ap (override_keys env) (unread_file file env loaded absent found)
        ∙ override_keys-nil env in
      (nobody, ap (λ ps. initialize ps []) nobody)
