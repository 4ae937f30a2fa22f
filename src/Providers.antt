-- ===== src/Providers.antt =====
-- include/providers/ and src/providers/: the registry and the retry loop. The requests that the
-- providers make over HTTP are a parameter of the operations that call them.
pub mod Retry
pub mod Delays
pub mod Registry
pub mod Bodies
pub mod Client
pub mod Conversations
pub mod Recovery
pub mod Classes
use cost_optimized_llm_infer.Common.{
  ℕ, zero, suc, ◌*◌, ◌^◌, Bool, true, false, not, ◌||◌, List, [], ◌∷◌, map, foldl, Option, none,
  some, Text, is_empty, same_text, codes, ltb, ℤ, pos, negsuc, Dict, lookup, insert, if◌then◌else◌,
}
use cost_optimized_llm_infer.Types.{ChatResponse}
use cost_optimized_llm_infer.Config.{ProviderConfig}

-- The classes that derive from `BaseProvider`.
pub data ProviderKind : Type 0 where
  openai anthropic together groq : ProviderKind

pub record Provider : Type 0 where
  pub kind : ProviderKind
  pub api_key : Text
  pub base_url : Text
  pub timeout_ms : ℤ
  pub max_retries : ℤ

-- `providers_`
abbrev pub Registry : Type 0
Registry = Dict Provider

abbrev pub openai_url : Text
openai_url = codes "https://api.openai.com"

abbrev pub anthropic_url : Text
anthropic_url = codes "https://api.anthropic.com"

abbrev pub together_url : Text
together_url = codes "https://api.together.xyz"

abbrev pub groq_url : Text
groq_url = codes "https://api.groq.com"

-- What the constructor of each class sets.
unfoldable pub default_url : ProviderKind → Text
default_url openai = openai_url
default_url anthropic = anthropic_url
default_url together = together_url
default_url groq = groq_url

abbrev pub openai_models : List Text
openai_models =
    codes "gpt-4o"
    ∷ codes "gpt-4o-mini"
    ∷ codes "gpt-4-turbo"
    ∷ codes "o1"
    ∷ codes "o1-mini"
    ∷ codes "o3-mini"
    ∷ codes "gpt-3.5-turbo"
    ∷ []

abbrev pub anthropic_models : List Text
anthropic_models =
    codes "claude-sonnet-4-20250514" ∷ codes "claude-haiku-3-5" ∷ codes "claude-opus-4" ∷ []

abbrev pub together_models : List Text
together_models =
    codes "meta-llama/Llama-3.1-8B-Instruct"
    ∷ codes "meta-llama/Llama-3.1-70B-Instruct"
    ∷ codes "meta-llama/Llama-3.3-70B-Instruct"
    ∷ codes "mistralai/Mixtral-8x7B-Instruct-v0.1"
    ∷ codes "Qwen/Qwen2.5-72B-Instruct"
    ∷ []

abbrev pub groq_models : List Text
groq_models =
    codes "llama-3.1-8b-instant"
    ∷ codes "llama-3.1-70b-versatile"
    ∷ codes "llama-3.3-70b-versatile"
    ∷ codes "mixtral-8x7b-32768"
    ∷ codes "gemma2-9b-it"
    ∷ []

-- The virtual method.
unfoldable pub supported_models : ProviderKind → List Text
supported_models openai = openai_models
supported_models anthropic = anthropic_models
supported_models together = together_models
supported_models groq = groq_models

-- `std::find` in the list of models.
unfoldable pub contains : Text → List Text → Bool
contains model [] = false
contains model (m ∷ ms) = same_text m model || contains model ms

unfoldable pub supports_model : Text → ProviderKind → Bool
supports_model model kind = contains model (supported_models kind)

unfoldable pub kind_of : Text → Option ProviderKind
kind_of name =
    if same_text name (codes "openai")
    then some openai
    else if same_text name (codes "anthropic")
    then some anthropic
    else if same_text name (codes "together")
    then some together
    else if same_text name (codes "groq")
    then some groq
    else none

unfoldable pub create_provider : ProviderConfig → Option Provider
create_provider cfg = elim (kind_of cfg.name) [
  | none ↦ none
  | some kind ↦ some (record {
    kind = kind;
    api_key = cfg.api_key;
    base_url = if is_empty cfg.base_url then default_url kind else cfg.base_url;
    timeout_ms = cfg.timeout_ms;
    max_retries = cfg.max_retries;
  })
]

-- One round of the loop of `initialize`.
unfoldable pub register : Registry → ProviderConfig → Registry
register providers cfg =
    if not cfg.enabled || is_empty cfg.api_key
    then providers
    else elim (create_provider cfg) [ none ↦ providers | some p ↦ insert cfg.name p providers ]

unfoldable pub initialize : List ProviderConfig → Registry → Registry
initialize configs providers = foldl register providers configs

unfoldable pub find_provider : Text → Registry → Option Provider
find_provider name providers = lookup name providers

unfoldable pub available_providers : Registry → List Text
available_providers providers = map (λ (name, _). name) providers

unfoldable pub has_provider : Text → Registry → Bool
has_provider name providers = elim (lookup name providers) [ none ↦ false | some p ↦ true ]

-- What a call of a provider ends with: a response, or an exception with its message.
pub data Reply (F : Type 0) : Type 0 where
  answered : ChatResponse F → Reply F
  raised : Text → Reply F

-- What `with_retry` ends with; `undefined` is `rethrow_exception` of a null pointer.
pub data Retried (F : Type 0) : Type 0 where
  returned : ChatResponse F → Retried F
  rethrown : Text → Retried F
  undefined : Retried F

module _ {F : Type 0} where
  -- The loop with `left` attempts to go and the exception that was caught last; the delays in
  -- milliseconds and the end.
  unfoldable pub retry_from :
      (left attempt : ℕ) → (last_ex : Option Text) → (fn : ℕ → Reply F) → List ℕ × Retried F
  retry_from zero attempt last_ex fn = ([], elim last_ex [ none ↦ undefined | some e ↦ rethrown e ])
  retry_from (suc left) attempt last_ex fn = elim (fn attempt) [
    | answered resp ↦ ([], returned resp)
    | raised e ↦
        let (delays, out) = retry_from left (suc attempt) (some e) fn in
        (if ltb 0 left then 100 * 2 ^ attempt ∷ delays else delays, out)
  ]

  -- `fn attempt` is what the call makes of that attempt.
  unfoldable pub with_retry : (max_retries : ℤ) → (fn : ℕ → Reply F) → List ℕ × Retried F
  with_retry (pos n) fn = retry_from (suc n) 0 none fn
  with_retry (negsuc n) fn = retry_from 0 0 none fn
