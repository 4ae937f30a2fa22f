-- ===== src/Main/Startup.antt =====
-- What is logged from the registration of the providers on to the run of the server, by src/main.cpp
-- and src/providers/provider_registry.cpp, and the least level that src/main.cpp sets for the log. The
-- lines of the loading of the configuration come before; they are not modelled.
use cost_optimized_llm_infer.Common.{
  ℕ, suc, length, show_ℕ, List, ite, not, ◌||◌, none, some, [], ◌∷◌, ◌++◌, map, foldl, Text,
  text_dec, codes, is_empty, same_text, show_ℤ, insert, ◌≡◌, refl, sym, ap, ◌∙◌, inl, inr,
  Bool-cases, Option-cases, Double, if◌then◌else◌, arith,
}
use cost_optimized_llm_infer.Types.{RoutingStrategy, strategy_to_string}
use cost_optimized_llm_infer.Logger.{Level, debug, info, warn, error, Line}
use cost_optimized_llm_infer.Config.{ProviderConfig, GatewayConfig}
use cost_optimized_llm_infer.Router
use cost_optimized_llm_infer.Router.{get_strategy}
use cost_optimized_llm_infer.Providers.{
  Provider, Registry, supported_models, kind_of, create_provider, register, initialize,
  available_providers,
}
use cost_optimized_llm_infer.Main.{set_up}
use cost_optimized_llm_infer.Api.{Service}

-- The argument of `spdlog::set_level`.
unfoldable pub level_of : Text → Level
level_of log_level =
    if same_text log_level (codes "debug")
    then debug
    else if same_text log_level (codes "warn")
    then warn
    else if same_text log_level (codes "error")
    then error
    else info

-- One round of the loop of `initialize`, with `create_provider`.
unfoldable pub register_line : ProviderConfig → Line
register_line cfg =
    if not cfg.enabled
    then record {
      level = info;
      text = codes "Provider " ++ (cfg.name ++ codes " is disabled, skipping");
    }
    else if is_empty cfg.api_key
    then record {
      level = warn;
      text = codes "Provider " ++ (cfg.name ++ codes " has no API key, skipping");
    }
    else elim (kind_of cfg.name) [
      | none ↦ record { level = error; text = codes "Unknown provider: " ++ cfg.name }
      | some kind ↦ record {
        level = info;
        text =
            codes "Provider "
            ++ (cfg.name
                ++ (codes " initialized with "
                    ++ (show_ℕ (length (supported_models kind)) ++ codes " models")));
      }
    ]

-- The lines of `initialize`, with the registry that it makes.
unfoldable pub initialize_lines : List ProviderConfig → Registry → List Line
initialize_lines configs providers =
    map register_line configs
    ++ (record {
      level = info;
      text = codes "ProviderRegistry: " ++ (show_ℕ (length providers) ++ codes " providers active");
    }
        ∷ [])

-- The loop that joins the names of the providers.
unfoldable pub joined : List Text → Text
joined names = foldl (λ s p. (if is_empty s then s else s ++ codes ", ") ++ p) [] names

unfoldable pub provider_lines : List Text → List Line
provider_lines [] =
    record {
      level = warn;
      text = codes "No providers configured! Set API keys via env vars or config file.";
    }
    ∷ record {
      level = warn;
      text = codes "  OPENAI_API_KEY, ANTHROPIC_API_KEY, TOGETHER_API_KEY, GROQ_API_KEY";
    }
    ∷ []
provider_lines (p ∷ ps) =
    record { level = info; text = codes "Active providers: " ++ joined (p ∷ ps) } ∷ []

unfoldable pub strategy_line : RoutingStrategy → Line
strategy_line strategy = record {
  level = info;
  text = codes "Routing strategy: " ++ strategy_to_string strategy;
}

module _ {F : Type 0} where
  unfoldable pub cache_line : GatewayConfig F → Line
  cache_line cfg = record {
    level = info;
    text =
        codes "Cache: "
        ++ ((if cfg.cache.enabled then codes "enabled" else codes "disabled")
            ++ (codes " (max="
                ++ (show_ℤ cfg.cache.max_entries
                    ++ (codes ", ttl=" ++ (show_ℤ cfg.cache.ttl_seconds ++ codes "s)")))));
  }

  unfoldable pub server_line : GatewayConfig F → Line
  server_line cfg = record {
    level = info;
    text =
        codes "Starting LLM Gateway on "
        ++ (cfg.server.host
            ++ (codes ":"
                ++ (show_ℤ cfg.server.port
                    ++ (codes " (" ++ (show_ℤ cfg.server.threads ++ codes " threads)")))));
  }

  -- The lines of the log from the registration of the providers on to the run of the server.
  unfoldable pub startup_lines : GatewayConfig F → Service F → List Line
  startup_lines cfg s =
      initialize_lines cfg.providers s.registry
      ++ (provider_lines (available_providers s.registry)
          ++ (strategy_line (get_strategy s.gateway.router)
              ∷ cache_line cfg
              ∷ server_line cfg
              ∷ []))

-- Any other keys for the providers, and for the administrator.
abbrev pub rekeyed : (Text → Text) → ProviderConfig → ProviderConfig
rekeyed f pc = record pc { api_key = f pc.api_key }

abbrev pub disguised : {F : Type 0} → (Text → Text) → Text → GatewayConfig F → GatewayConfig F
disguised f admin_key cfg = record cfg {
  server = record (cfg.server) { admin_key = admin_key };
  providers = map (rekeyed f) cfg.providers;
}

-- The names of a map that gets a value under a key.
abbrev with_name : Text → List Text → List Text
with_name k [] = k ∷ []
with_name k (n ∷ ns) = ite (text_dec n k) (n ∷ ns) (n ∷ with_name k ns)

available_providers-insert :
    (k : Text) (p : Provider) (m : Registry)
    → available_providers (insert k p m) ≡ with_name k (available_providers m)
unfolding available_providers insert
available_providers-insert k p [] = refl
available_providers-insert k p ((n, q) ∷ m) = ground (arith, available_providers-insert k p m)

length-available_providers : (m : Registry) → length m ≡ length (available_providers m)
unfolding available_providers
length-available_providers [] = refl
length-available_providers ((n, p) ∷ m) = ap suc (length-available_providers m)

module _ (f : Text → Text) (kept : (key : Text) → is_empty (f key) ≡ is_empty key) where
  available_providers-register :
      (pc : ProviderConfig) (m m' : Registry)
      → available_providers m ≡ available_providers m'
      → available_providers (register m (rekeyed f pc)) ≡ available_providers (register m' pc)
  unfolding register create_provider
  available_providers-register pc m m' same =
      elim (Bool-cases (not pc.enabled || is_empty pc.api_key)) [
        | inl out ↦ rw (kept pc.api_key, out) same
        | inr on ↦ elim (Option-cases (kind_of pc.name)) [
          | inl unknown ↦ rw (kept pc.api_key, on, unknown, register, create_provider) same
          | inr (kind, found) ↦
              rw (kept pc.api_key, on, found, register, create_provider)
                (available_providers-insert pc.name _ m
                  ∙ ap (with_name pc.name) same
                  ∙ sym (available_providers-insert pc.name _ m'))
        ]
      ]

  available_providers-initialize :
      (pcs : List ProviderConfig) (m m' : Registry)
      → available_providers m ≡ available_providers m'
      → available_providers (initialize (map (rekeyed f) pcs) m)
        ≡ available_providers (initialize pcs m')
  unfolding initialize
  available_providers-initialize [] m m' same = same
  available_providers-initialize (pc ∷ pcs) m m' same =
      available_providers-initialize pcs (register m (rekeyed f pc)) (register m' pc)
        (available_providers-register pc m m' same)

  register_line-rekeyed :
      (pcs : List ProviderConfig) → map register_line (map (rekeyed f) pcs) ≡ map register_line pcs
  unfolding register_line
  register_line-rekeyed [] = refl
  register_line-rekeyed (pc ∷ pcs) = rw (kept pc.api_key, register_line-rekeyed pcs) refl

  initialize_lines-rekeyed :
      (pcs : List ProviderConfig)
      → initialize_lines (map (rekeyed f) pcs) (initialize (map (rekeyed f) pcs) [])
        ≡ initialize_lines pcs (initialize pcs [])
  unfolding initialize_lines
  initialize_lines-rekeyed pcs =
      let count : length (initialize (map (rekeyed f) pcs) []) ≡ length (initialize pcs []) =
        length-available_providers (initialize (map (rekeyed f) pcs) [])
        ∙ ap length (available_providers-initialize pcs [] [] refl)
        ∙ sym (length-available_providers (initialize pcs [])) in
      rw (register_line-rekeyed pcs, count) refl

  -- From the registration of the providers on to the run of the server, the log of the start discloses
  -- no key: with any other keys for the providers, as long as the same ones are there, and any other
  -- key of the administrator, it has the same lines.
  pub startup_lines-set_up :
      {F : Type 0} ⦃d : Double F⦄ (now : ℕ) (admin_key : Text) (cfg : GatewayConfig F)
      → startup_lines (disguised f admin_key cfg) (set_up now (disguised f admin_key cfg))
        ≡ startup_lines cfg (set_up now cfg)
  unfolding startup_lines set_up cache_line server_line Router.init get_strategy
  startup_lines-set_up now admin_key cfg =
      let rest = λ (names : List Text).
        provider_lines names
        ++ (strategy_line cfg.default_strategy ∷ cache_line cfg ∷ server_line cfg ∷ []) in
      ap
        (λ (lines : List Line).
          lines ++ rest (available_providers (initialize (map (rekeyed f) cfg.providers) [])))
        (initialize_lines-rekeyed cfg.providers)
      ∙ ap (λ names. initialize_lines cfg.providers (initialize cfg.providers []) ++ rest names)
          (available_providers-initialize cfg.providers [] [] refl)
