-- ===== src/Providers/Registry.antt =====
-- What `ProviderRegistry::initialize` puts into the registry.
use cost_optimized_llm_infer.Common.{
  Bool, true, false, not, ◌||◌, List, [], some, Text, is_empty, ◌≡◌, inl, inr, sym, ◌∙◌, lookup,
  lookup-insert, stored_ind, Elem, arith, Bool-cases, Option-cases, All-of_Elem, foldl_ind,
}
use cost_optimized_llm_infer.Config.{ProviderConfig}
use cost_optimized_llm_infer.Providers.{Provider, create_provider, register, initialize, Registry}

-- A provider that an enabled configuration with a key describes.
pub record IsConfigured (configs : List ProviderConfig) (p : Provider) : Type 0 where
  pub by : ProviderConfig
  pub known : Elem by configs
  pub on : by.enabled ≡ true
  pub keyed : is_empty by.api_key ≡ false
  pub made : create_provider by ≡ some p

abbrev AllConfigured : List ProviderConfig → Registry → Type 0
AllConfigured configs providers =
    (name : Text) (p : Provider) → lookup name providers ≡ some p → IsConfigured configs p

guards : (on empty : Bool) → (not on || empty) ≡ false → (on ≡ true) × (empty ≡ false)
guards on empty e = (ground (arith, e), ground (arith, e))

register-AllConfigured :
    (configs : List ProviderConfig) (cfg : ProviderConfig)
    → Elem cfg configs
    → (providers : Registry) → AllConfigured configs providers
    → AllConfigured configs (register providers cfg)
unfolding register
register-AllConfigured configs cfg known providers h =
    elim (Bool-cases (not cfg.enabled || is_empty cfg.api_key)) [
      | inl e ↦ rw e h
      | inr e ↦
          let (on, keyed) = guards cfg.enabled (is_empty cfg.api_key) e in
          rw e (elim (Option-cases (create_provider cfg)) [
            | inl none_made ↦ rw (none_made, register) h
            | inr (p, made) ↦
                rw (made, register)
                  (λ name q found.
                    stored_ind (IsConfigured configs) cfg.name name p q (lookup name providers)
                      (sym (lookup-insert name cfg.name p providers) ∙ found)
                      (record { by = cfg; known = known; on = on; keyed = keyed; made = made })
                      (λ before. h name q before))
          ])
    ]

-- Every provider that a registry started from nothing holds was made from a configuration that is
-- enabled and has a key.
pub initialize-IsConfigured :
    (configs : List ProviderConfig) (name : Text) (p : Provider)
    → lookup name (initialize configs []) ≡ some p
    → IsConfigured configs p
unfolding initialize lookup
initialize-IsConfigured configs =
    foldl_ind (AllConfigured configs) register [] configs
      (All-of_Elem _ configs (λ cfg known. register-AllConfigured configs cfg known))
      (λ name p e. absurd cc)
