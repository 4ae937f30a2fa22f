-- ===== src/Config/Aliases.antt =====
-- Where the built-in aliases of src/config.cpp lead.
use cost_optimized_llm_infer.Common.{
  true, [], ◌∷◌, some, Text, codes, text_dec, same_text, split_at_byte, Dict, lookup, insert, All,
  ◌≡◌, refl, ap, ◌∙◌, arith, Double,
}
use mathlib.Core.Option.{some-injective}
use mathlib.Core.Path.{subst}
use cost_optimized_llm_infer.Types.{ChatRequest, RouteDecision, ModelPricing}
use cost_optimized_llm_infer.CostTracker.{price_key}
use cost_optimized_llm_infer.Config.{GatewayConfig}
use cost_optimized_llm_infer.Config.Defaults.{
  default_aliases, add_alias, default_pricing, add_price, initial,
}
use cost_optimized_llm_infer.Providers.{
  ProviderKind, openai, anthropic, together, groq, kind_of, supports_model, supported_models,
  contains,
}
use cost_optimized_llm_infer.Router.{Router, resolve_model_alias}
use cost_optimized_llm_infer.Router.Strategies.{decision}
use cost_optimized_llm_infer.Router.Dispatch.{others, route}

-- A provider with one of its models and the built-in price of this model.
pub record IsOffered (F : Type 0) ⦃d : Double F⦄ (target : Text) : Type 0 where
  pub provider : Text
  pub model : Text
  pub kind : ProviderKind
  pub price : ModelPricing F
  pub named : split_at_byte 58 target ≡ some (provider, model)
  pub known : kind_of provider ≡ some kind
  pub supported : supports_model model kind ≡ true
  pub priced : lookup (price_key provider model) default_pricing ≡ some price

module _ {F : Type 0} ⦃d : Double F⦄ where
  offered :
      (provider model : Text) (kind : ProviderKind) (price : ModelPricing F) (target : Text)
      → split_at_byte 58 target ≡ some (provider, model)
      → kind_of provider ≡ some kind
      → supports_model model kind ≡ true
      → lookup (price_key provider model) default_pricing ≡ some price
      → IsOffered F target
  offered provider model kind price target a b c e = record {
    provider = provider;
    model = model;
    kind = kind;
    price = price;
    named = a;
    known = b;
    supported = c;
    priced = e;
  }

default_aliases-IsOffered :
    (F : Type 0) → ⦃d : Double F⦄ → All {A = Text × Text} (λ e. IsOffered F e.1) default_aliases
unfolding default_aliases add_alias split_at_byte kind_of supports_model contains lookup text_dec
    price_key default_pricing add_price insert supported_models same_text
default_aliases-IsOffered F = (
  offered (codes "openai") (codes "gpt-4o") openai _ _ refl refl refl refl,
  (
    offered (codes "anthropic") (codes "claude-sonnet-4-20250514") anthropic _ _ refl refl refl
        refl,
    (
      offered (codes "together") (codes "meta-llama/Llama-3.1-70B-Instruct") together _ _ refl refl
          refl refl,
      (
        offered (codes "groq") (codes "llama-3.1-8b-instant") groq _ _ refl refl refl refl,
        (
          offered (codes "together") (codes "meta-llama/Llama-3.1-8B-Instruct") together _ _ refl
              refl refl refl,
          (
            offered (codes "anthropic") (codes "claude-sonnet-4-20250514") anthropic _ _ refl refl
                refl refl,
            tt,
          ),
        ),
      ),
    ),
  ),
)

lookup-All :
    {V : Type 0} (P : V → Type 0) (k : Text) (m : Dict V) (v : V)
    → All {A = Text × V} (λ e. P e.1) m
    → lookup k m ≡ some v
    → P v
unfolding lookup
lookup-All P k [] v h e = absurd cc
lookup-All P k ((j, w) ∷ m) v h e = elim (text_dec j k) [
  | yes same ↦ subst P (some-injective w v (ground (arith, e))) h.0
  | no other ↦ lookup-All P k m v h.1 (ground (arith, e))
]

module _ {F : Type 0} ⦃d : Double F⦄ where
  resolve_model_alias-stored :
      (alias target : Text) (cfg : GatewayConfig F)
      → lookup alias cfg.model_aliases ≡ some target
      → resolve_model_alias alias cfg ≡ target
  unfolding resolve_model_alias
  resolve_model_alias-stored alias target cfg found = rw (found, resolve_model_alias) refl

  route-named :
      (req : ChatRequest F) (cfg : GatewayConfig F) (r : Router F) (target provider model : Text)
      → resolve_model_alias req.model cfg ≡ target
      → split_at_byte 58 target ≡ some (provider, model)
      → route req cfg r ≡ some (decision provider model r.strategy (others provider r.health), r)
  unfolding route
  route-named req cfg r target provider model resolved named =
      rw (ap (split_at_byte 58) resolved ∙ named, route) refl

  -- Under the built-in configuration a request for a built-in alias goes straight to a provider of a
  -- known kind, with one of the models of that kind, which has a built-in price; whatever the
  -- strategy and the health records say.
  pub route-alias :
      (alias target : Text) (req : ChatRequest F) (r : Router F)
      → lookup alias default_aliases ≡ some target
      → req.model ≡ alias
      → (dec : RouteDecision F) × (kind : ProviderKind) × (price : ModelPricing F) × (route req
            initial r
          ≡ some (dec, r))
        × (kind_of dec.provider ≡ some kind)
        × (supports_model dec.model kind ≡ true)
        × (lookup (price_key dec.provider dec.model) default_pricing ≡ some price)
  unfolding initial
  route-alias alias target req r found asked =
      let o : IsOffered F target =
        lookup-All (IsOffered F) alias default_aliases target (default_aliases-IsOffered F) found in
      let resolved : resolve_model_alias req.model (initial {F = F}) ≡ target =
        ap (λ m. resolve_model_alias m (initial {F = F})) asked
        ∙ resolve_model_alias-stored alias target (initial {F = F}) found in
      (
        decision o.provider o.model r.strategy (others o.provider r.health),
        o.kind,
        o.price,
        route-named req initial r target o.provider o.model resolved o.named,
        o.known,
        o.supported,
        o.priced,
      )
