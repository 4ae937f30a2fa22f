-- ===== src/Config/Load.antt =====
-- `load_from_file` of src/config.cpp. A load that throws keeps what it has assigned before: it gives
-- the configuration and whether it went through.
use cost_optimized_llm_infer.Common.{
  Bool, true, false, List, [], ◌∷◌, ◌++◌, Option, none, some, Text, codes, pos, insert,
  if◌then◌else◌, ◌>>=◌, traverse,
}
use cost_optimized_llm_infer.Types.{strategy_named}
use cost_optimized_llm_infer.Json.{Json, value}
use cost_optimized_llm_infer.Config.{ProviderConfig, GatewayConfig}
use cost_optimized_llm_infer.Config.Environment.{Env, apply_env_overrides}

abbrev pub Loader : Type 0 → Type 0
Loader F = GatewayConfig F → GatewayConfig F × Bool

module _ {F : Type 0} where
  infixl 20 ◌then_load◌
  unfoldable pub ◌then_load◌ : Loader F → Loader F → Loader F
  ◌then_load◌ m n cfg = let (cfg', ok) = m cfg in if ok then n cfg' else (cfg', false)

  abbrev pub skip : Loader F
  skip cfg = (cfg, true)

  unfoldable pub add_provider : ProviderConfig → GatewayConfig F → GatewayConfig F
  add_provider p cfg = record cfg { providers = cfg.providers ++ (p ∷ []) }

  unfoldable pub clear_providers : Loader F
  clear_providers cfg = (record cfg { providers = [] }, true)

  unfoldable pub set_alias : Text → Text → GatewayConfig F → GatewayConfig F
  set_alias alias target cfg = record cfg { model_aliases = insert alias target cfg.model_aliases }

module _ {J : Type 0} ⦃j : Json J⦄ where
  open j use {is_array, is_object, find, items, entries, get_text, get_int, get_bool}

  -- The models of a provider, if there is an array of them.
  unfoldable pub parse_models : J → Option (List Text)
  parse_models p = elim (find (codes "models") p) [
    | none ↦ some []
    | some models ↦ if is_array models then traverse get_text (items models) else some []
  ]

  unfoldable pub parse_provider : J → Option ProviderConfig
  parse_provider p = do
    name ← value get_text (codes "name") [] p
    api_key ← value get_text (codes "api_key") [] p
    base_url ← value get_text (codes "base_url") [] p
    timeout_ms ← value get_int (codes "timeout_ms") (pos 30_000) p
    max_retries ← value get_int (codes "max_retries") (pos 2) p
    weight ← value get_int (codes "weight") (pos 1) p
    enabled ← value get_bool (codes "enabled") true p
    models ← parse_models p
    some (record {
      name = name;
      api_key = api_key;
      base_url = base_url;
      timeout_ms = timeout_ms;
      max_retries = max_retries;
      weight = weight;
      enabled = enabled;
      models = models;
    })

  module _ {F : Type 0} where
    -- `field = s.value(key, field)`
    unfoldable pub assign :
        {A : Type 0}
        → (J → Option A)
        → (key : Text) → (GatewayConfig F → A)
        → (A → GatewayConfig F → GatewayConfig F)
        → J
        → Loader F
    assign convert key field put s cfg = elim (value convert key (field cfg) s) [
      | none ↦ (cfg, false)
      | some x ↦ (put x cfg, true)
    ]

    -- A section is read if the file has it.
    unfoldable pub section : (key : Text) → (J → Loader F) → J → Loader F
    section key load file cfg = elim (find key file) [ none ↦ (cfg, true) | some s ↦ load s cfg ]

    unfoldable pub load_server : J → Loader F
    load_server s =
        assign get_text (codes "host") (λ c. c.server.host)
          (λ x c. record c { server = record (c.server) { host = x } }) s
        then_load assign get_int (codes "port") (λ c. c.server.port)
            (λ x c. record c { server = record (c.server) { port = x } }) s
        then_load assign get_int (codes "threads") (λ c. c.server.threads)
            (λ x c. record c { server = record (c.server) { threads = x } }) s
        then_load assign get_text (codes "log_level") (λ c. c.server.log_level)
            (λ x c. record c { server = record (c.server) { log_level = x } }) s
        then_load assign get_text (codes "admin_key") (λ c. c.server.admin_key)
            (λ x c. record c { server = record (c.server) { admin_key = x } }) s
        then_load assign get_bool (codes "enable_cors") (λ c. c.server.enable_cors)
            (λ x c. record c { server = record (c.server) { enable_cors = x } }) s

    unfoldable pub load_cache : J → Loader F
    load_cache s =
        assign get_bool (codes "enabled") (λ c. c.cache.enabled)
          (λ x c. record c { cache = record (c.cache) { enabled = x } }) s
        then_load assign get_int (codes "ttl_seconds") (λ c. c.cache.ttl_seconds)
            (λ x c. record c { cache = record (c.cache) { ttl_seconds = x } }) s
        then_load assign get_int (codes "max_entries") (λ c. c.cache.max_entries)
            (λ x c. record c { cache = record (c.cache) { max_entries = x } }) s
        then_load assign get_bool (codes "match_params") (λ c. c.cache.match_params)
            (λ x c. record c { cache = record (c.cache) { match_params = x } }) s

    unfoldable pub load_rate_limit : J → Loader F
    load_rate_limit s =
        assign get_int (codes "default_rpm") (λ c. c.rate_limit.default_rpm)
          (λ x c. record c { rate_limit = record (c.rate_limit) { default_rpm = x } }) s
        then_load assign get_int (codes "default_tpm") (λ c. c.rate_limit.default_tpm)
            (λ x c. record c { rate_limit = record (c.rate_limit) { default_tpm = x } }) s

    unfoldable pub load_strategy : J → Loader F
    load_strategy s cfg = elim (get_text s) [
      | none ↦ (cfg, false)
      | some name ↦ (record cfg { default_strategy = strategy_named name }, true)
    ]

    -- The loop over the providers; each that is read is kept.
    unfoldable pub push_providers : List J → Loader F
    push_providers [] cfg = (cfg, true)
    push_providers (x ∷ xs) cfg = elim (parse_provider x) [
      | none ↦ (cfg, false)
      | some p ↦ push_providers xs (add_provider p cfg)
    ]

    unfoldable pub load_providers : J → Loader F
    load_providers s =
        if is_array s then clear_providers then_load push_providers (items s) else skip

    unfoldable pub push_aliases : List (Text × J) → Loader F
    push_aliases [] cfg = (cfg, true)
    push_aliases ((alias, target) ∷ rest) cfg = elim (get_text target) [
      | none ↦ (cfg, false)
      | some t ↦ push_aliases rest (set_alias alias t cfg)
    ]

    unfoldable pub load_aliases : J → Loader F
    load_aliases s = if is_object s then push_aliases (entries s) else skip

    -- The sections in their order.
    unfoldable pub load_json : J → Loader F
    load_json file =
        section (codes "server") load_server file
        then_load section (codes "cache") load_cache file
        then_load section (codes "rate_limit") load_rate_limit file
        then_load section (codes "routing_strategy") load_strategy file
        then_load section (codes "providers") load_providers file
        then_load section (codes "model_aliases") load_aliases file

    -- `file` is `none` if it cannot be opened, and the result of `json::parse` otherwise. The outer
    -- `none` is an exception of `std::stoi`; the Boolean is the result.
    unfoldable pub load_from_file :
        (file : Option (Option J)) → Env → GatewayConfig F → Option (GatewayConfig F × Bool)
    load_from_file file env cfg = elim file [
      | none ↦ apply_env_overrides env cfg >>= λ c. some (c, false)
      | some parsed ↦ elim parsed [
        | none ↦ some (cfg, false)
        | some body ↦
            let (c, ok) = load_json body cfg in
            if ok then (apply_env_overrides env c >>= λ c'. some (c', true)) else some (c, false)
      ]
    ]
