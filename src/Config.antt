-- ===== src/Config.antt =====
-- include/config.h: the configuration.
pub mod Defaults
pub mod Environment
pub mod Load
pub mod Overrides
pub mod Aliases
pub mod Partial
pub mod Prices
use cost_optimized_llm_infer.Common.{Bool, List, Text, Dict, ℤ}
use cost_optimized_llm_infer.Types.{RoutingStrategy, ModelPricing}
use cost_optimized_llm_infer.Cache.{CacheConfig}
use cost_optimized_llm_infer.RateLimiter.{RateLimitConfig}

pub record ProviderConfig : Type 0 where
  pub name : Text
  pub api_key : Text
  pub base_url : Text
  pub timeout_ms : ℤ
  pub max_retries : ℤ
  pub weight : ℤ
  pub enabled : Bool
  pub models : List Text

pub record ServerConfig : Type 0 where
  pub host : Text
  pub port : ℤ
  pub threads : ℤ
  pub enable_cors : Bool
  pub log_level : Text
  pub admin_key : Text

pub record GatewayConfig (F : Type 0) : Type 0 where
  pub server : ServerConfig
  pub cache : CacheConfig
  pub rate_limit : RateLimitConfig
  pub default_strategy : RoutingStrategy
  pub providers : List ProviderConfig
  pub pricing : Dict (ModelPricing F)
  pub model_aliases : Dict Text
