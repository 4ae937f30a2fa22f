-- ===== src/Config/Defaults.antt =====
-- `Config::set_default_pricing` of src/config.cpp, and the configuration that a `Config` starts with.
use cost_optimized_llm_infer.Common.{
  List, [], ◌∷◌, foldl, Text, codes, true, pos, Dict, insert, Double,
}
use cost_optimized_llm_infer.Types.{ModelPricing, smart}
use cost_optimized_llm_infer.CostTracker.{price_key}
use cost_optimized_llm_infer.Config.{ServerConfig, GatewayConfig}

unfoldable pub add_alias : Dict Text → Text × Text → Dict Text
add_alias aliases (alias, target) = insert alias target aliases

-- The aliases, in the order in which they are set.
abbrev pub alias_table : List (Text × Text)
alias_table =
    (codes "gpt-4o", codes "openai:gpt-4o")
    ∷ (codes "claude", codes "anthropic:claude-sonnet-4-20250514")
    ∷ (codes "llama-70b", codes "together:meta-llama/Llama-3.1-70B-Instruct")
    ∷ (codes "fast", codes "groq:llama-3.1-8b-instant")
    ∷ (codes "cheap", codes "together:meta-llama/Llama-3.1-8B-Instruct")
    ∷ (codes "smart", codes "anthropic:claude-sonnet-4-20250514")
    ∷ []

unfoldable pub default_aliases : Dict Text
default_aliases = foldl add_alias [] alias_table

abbrev pub default_server : ServerConfig
default_server = record {
  host = codes "0.0.0.0";
  port = pos 8080;
  threads = pos 4;
  enable_cors = true;
  log_level = codes "info";
  admin_key = [];
}

module _ {F : Type 0} ⦃d : Double F⦄ where
  open d use {lit}

  abbrev pub price : (provider model : Text) → (in_1k out_1k : F) → ModelPricing F
  price provider model in_1k out_1k = record {
    provider = provider;
    model = model;
    input_cost_per_1k = in_1k;
    output_cost_per_1k = out_1k;
  }

  -- The prices for a thousand tokens, in the order in which they are set.
  abbrev pub price_table : List (ModelPricing F)
  price_table =
      price (codes "openai") (codes "gpt-4o") (lit 25 4) (lit 10 3)
      ∷ price (codes "openai") (codes "gpt-4o-mini") (lit 15 5) (lit 6 4)
      ∷ price (codes "openai") (codes "gpt-4-turbo") (lit 1 2) (lit 3 2)
      ∷ price (codes "openai") (codes "o1") (lit 15 3) (lit 6 2)
      ∷ price (codes "openai") (codes "o1-mini") (lit 3 3) (lit 12 3)
      ∷ price (codes "openai") (codes "o3-mini") (lit 11 4) (lit 44 4)
      ∷ price (codes "anthropic") (codes "claude-sonnet-4-20250514") (lit 3 3) (lit 15 3)
      ∷ price (codes "anthropic") (codes "claude-haiku-3-5") (lit 8 4) (lit 4 3)
      ∷ price (codes "anthropic") (codes "claude-opus-4") (lit 15 3) (lit 75 3)
      ∷ price (codes "together") (codes "meta-llama/Llama-3.1-8B-Instruct") (lit 18 5) (lit 18 5)
      ∷ price (codes "together") (codes "meta-llama/Llama-3.1-70B-Instruct") (lit 88 5) (lit 88 5)
      ∷ price (codes "together") (codes "mistralai/Mixtral-8x7B-Instruct-v0.1") (lit 6 4) (lit 6 4)
      ∷ price (codes "groq") (codes "llama-3.1-8b-instant") (lit 5 5) (lit 8 5)
      ∷ price (codes "groq") (codes "llama-3.1-70b-versatile") (lit 59 5) (lit 79 5)
      ∷ price (codes "groq") (codes "mixtral-8x7b-32768") (lit 24 5) (lit 24 5)
      ∷ []

  unfoldable pub add_price : Dict (ModelPricing F) → ModelPricing F → Dict (ModelPricing F)
  add_price pricing p = insert (price_key p.provider p.model) p pricing

  unfoldable pub default_pricing : Dict (ModelPricing F)
  default_pricing = foldl add_price [] price_table

  -- The members' initialisers and the constructor.
  unfoldable pub initial : GatewayConfig F
  initial = record {
    server = default_server;
    cache = record {
      enabled = true;
      ttl_seconds = pos 3600;
      max_entries = pos 10_000;
      match_params = true;
    };
    rate_limit = record { default_rpm = pos 60; default_tpm = pos 100_000 };
    default_strategy = smart;
    providers = [];
    pricing = default_pricing;
    model_aliases = default_aliases;
  }
