-- ===== src/Tests/Starting.antt =====
-- Runs of the configuration.
use cost_optimized_llm_infer.Common.{
  is_empty, true, false, [], ◌∷◌, none, some, Text, codes, ℤ, pos, ◌≡◌, inl, refl, lookup, insert,
  text_dec, ite,
}
use cost_optimized_llm_infer.Types.{ModelPricing, RouteDecision}
use cost_optimized_llm_infer.Json.{value}
use cost_optimized_llm_infer.TokenCounter.{is_space}
use cost_optimized_llm_infer.CostTracker.{price_key}
use cost_optimized_llm_infer.Router.Dispatch.{route}
use cost_optimized_llm_infer.Providers.{ProviderKind, kind_of, supports_model}
use cost_optimized_llm_infer.Config.{ProviderConfig, GatewayConfig}
use cost_optimized_llm_infer.Config.Defaults.{default_aliases, default_pricing, add_alias, initial}
use cost_optimized_llm_infer.Config.Environment.{
  Env, stoi, skip_spaces, is_digit, read_digits, read_magnitude, within_int, read_signed,
  override_int, override_text, override_server, override_key, override_keys, apply_env_overrides,
  load_from_env,
}
use cost_optimized_llm_infer.Config.Load.{
  parse_models, parse_provider, push_providers, load_from_file,
}
use cost_optimized_llm_infer.Config.Partial.{more_providers, push_providers-traverse}
use cost_optimized_llm_infer.Config.Aliases.{route-alias}
use cost_optimized_llm_infer.Main.{configure, set_up}
use cost_optimized_llm_infer.Main.Startup.{disguised, startup_lines, startup_lines-set_up}
use cost_optimized_llm_infer.Main.Starts.{configure-no_providers}
use cost_optimized_llm_infer.Tests.Values.{millionths, gateway, request_for}
use cost_optimized_llm_infer.Tests.JsonValues.{Value, library, library_numbers}
use cost_optimized_llm_infer.Tests.Handling.{idle}

-- An environment with one variable.
abbrev one_variable : (name text : Text) → Env
one_variable name text k = ite (text_dec k name) (some text) none

abbrev built_in : GatewayConfig ℤ
built_in = initial

-- A port with blanks and a sign, and what does not start with a number.
port_read : stoi (codes "  +8081 ") ≡ some (pos 8081)
unfolding stoi skip_spaces read_signed read_magnitude read_digits is_digit within_int is_space
port_read = refl

port_refused : stoi (codes "web") ≡ none
unfolding stoi skip_spaces read_signed read_magnitude read_digits is_digit within_int is_space
port_refused = refl

abbrev moved : Env
moved = one_variable (codes "LLM_GATEWAY_HOST") (codes "localhost")

abbrev hosted : GatewayConfig ℤ
hosted = record built_in { server = record (built_in.server) { host = codes "localhost" } }

abbrev described : Value
described = library.object ((codes "name", library.string (codes "groq")) ∷ [])

abbrev wrong : Value
wrong = library.object ((codes "name", library.integer (pos 1)) ∷ [])

abbrev named_groq : ProviderConfig
named_groq = record {
  name = codes "groq";
  api_key = [];
  base_url = [];
  timeout_ms = pos 30_000;
  max_retries = pos 2;
  weight = pos 1;
  enabled = true;
  models = [];
}

push_providers-traverse_example :
    (push_providers (described ∷ []) gateway ≡ (more_providers (named_groq ∷ []) gateway, true))
    × (push_providers (described ∷ wrong ∷ described ∷ []) gateway
        ≡ (more_providers (named_groq ∷ []) gateway, false))
unfolding parse_provider parse_models value lookup text_dec
push_providers-traverse_example =
    push_providers-traverse (described ∷ []) (described ∷ []) wrong (named_groq ∷ []) gateway refl
      refl

route-alias_example :
    (dec : RouteDecision ℤ) × (kind : ProviderKind) × (price : ModelPricing ℤ) × (route
        (request_for (codes "cheap"))
        initial
        idle.router
      ≡ some (dec, idle.router))
    × (kind_of dec.provider ≡ some kind)
    × (supports_model dec.model kind ≡ true)
    × (lookup (price_key dec.provider dec.model) default_pricing ≡ some price)
unfolding default_aliases add_alias lookup insert text_dec
route-alias_example =
    route-alias (codes "cheap") (codes "together:meta-llama/Llama-3.1-8B-Instruct")
      (request_for (codes "cheap")) idle.router refl refl

configure-no_providers_example : (hosted.providers ≡ []) × ((set_up 7 hosted).registry ≡ [])
unfolding configure load_from_file load_from_env apply_env_overrides override_server override_int
    override_text override_keys override_key initial text_dec
configure-no_providers_example =
    configure-no_providers {J = Value} none moved 7 hosted (inl refl) refl

-- Another key in the place of a key.
abbrev swapped : Text → Text
swapped [] = []
swapped (c ∷ cs) = codes "another"

swapped_kept : (key : Text) → is_empty (swapped key) ≡ is_empty key
unfolding is_empty
swapped_kept [] = refl
swapped_kept (c ∷ cs) = refl

startup_lines-set_up_example :
    let other = disguised swapped (codes "other") gateway in
    startup_lines other (set_up 7 other) ≡ startup_lines gateway (set_up 7 gateway)
startup_lines-set_up_example = startup_lines-set_up swapped swapped_kept 7 (codes "other") gateway
