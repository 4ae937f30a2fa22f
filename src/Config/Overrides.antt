-- ===== src/Config/Overrides.antt =====
-- The environment against what was loaded: what it changes, and that a second time changes nothing.
use cost_optimized_llm_infer.Common.{
  Bool, true, false, List, Option, none, Text, codes, same_text, ◌≡◌, refl, Bool-cases, inl, inr,
}
use cost_optimized_llm_infer.Config.{ProviderConfig}
use cost_optimized_llm_infer.Config.Environment.{Env, override_text, set_api_key}

set_api_key-name : (name key : Text) (p : ProviderConfig) → (set_api_key name key p).name ≡ p.name
unfolding set_api_key
set_api_key-name name key p = elim (Bool-cases (same_text p.name name)) [
  | inl e ↦ rw e refl
  | inr e ↦ rw e refl
]

-- The key that a variable leaves to a provider, which it may not be about.
about : Bool → Option Text → Option Text
about true v = v
about false v = none

override_one : Option Text → (name : Text) → ProviderConfig → ProviderConfig
override_one v name p = record p {
  api_key = override_text (about (same_text p.name name) v) p.api_key;
}

-- The four variables in their order.
override_four : Env → ProviderConfig → ProviderConfig
override_four env p = override_one (env (codes "GROQ_API_KEY")) (codes "groq") (
    override_one (env (codes "TOGETHER_API_KEY")) (codes "together") (
      override_one (env (codes "ANTHROPIC_API_KEY")) (codes "anthropic")
        (override_one (env (codes "OPENAI_API_KEY")) (codes "openai") p)))
