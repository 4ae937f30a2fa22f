-- ===== src/Types.antt =====
-- include/types.h: the records and enumerations that the components exchange. `F` is the type of
-- `double`; a time point is a number of nanoseconds of the steady clock.
use cost_optimized_llm_infer.Common.{
  ℕ, Bool, List, Option, Text, codes, same_text, if◌then◌else◌, ℤ,
}

pub record Message : Type 0 where
  pub role : Text
  pub content : Text

-- `extra` and `received_at` are never read by the code that is modelled.
pub record ChatRequest (F : Type 0) : Type 0 where
  pub request_id : Text
  pub api_key : Text
  pub model : Text
  pub messages : List Message
  pub temperature : F
  pub max_tokens : ℤ
  pub stream : Bool
  pub user : Option Text

pub record ChatResponse (F : Type 0) : Type 0 where
  pub request_id : Text
  pub model : Text
  pub provider : Text
  pub content : Text
  pub prompt_tokens : ℤ
  pub completion_tokens : ℤ
  pub total_tokens : ℤ
  pub latency_ms : F
  pub cost_usd : F
  pub from_cache : Bool

pub record ProviderHealth (F : Type 0) : Type 0 where
  pub name : Text
  pub available : Bool
  pub avg_latency_ms : F
  pub error_rate : F
  pub requests_last_minute : ℤ
  pub errors_last_minute : ℤ
  pub last_success : ℕ
  pub last_error : ℕ

pub data RoutingStrategy : Type 0 where
  cost_optimized latency_optimized round_robin failover smart : RoutingStrategy

unfoldable pub strategy_to_string : RoutingStrategy → Text
strategy_to_string cost_optimized = codes "cost"
strategy_to_string latency_optimized = codes "latency"
strategy_to_string round_robin = codes "round_robin"
strategy_to_string failover = codes "failover"
strategy_to_string smart = codes "smart"

-- The comparisons of src/config.cpp and src/api/admin.cpp.
unfoldable pub strategy_named : Text → RoutingStrategy
strategy_named s =
    if same_text s (codes "cost")
    then cost_optimized
    else if same_text s (codes "latency")
    then latency_optimized
    else if same_text s (codes "round_robin")
    then round_robin
    else if same_text s (codes "failover")
    then failover
    else smart

pub record RouteDecision (F : Type 0) : Type 0 where
  pub provider : Text
  pub model : Text
  pub strategy_used : RoutingStrategy
  pub estimated_cost : F
  pub fallback_chain : List Text

pub record VirtualKey (F : Type 0) : Type 0 where
  pub key_id : Text
  pub key_hash : Text
  pub owner : Text
  pub tier : Text
  pub rate_limit_rpm : ℤ
  pub rate_limit_tpm : ℤ
  pub budget_usd : F
  pub spent_usd : F
  pub active : Bool
  pub allowed_models : List Text
  pub created_at : ℕ
  pub expires_at : ℕ

pub record ModelPricing (F : Type 0) : Type 0 where
  pub provider : Text
  pub model : Text
  pub input_cost_per_1k : F
  pub output_cost_per_1k : F

pub record RequestMetrics (F : Type 0) : Type 0 where
  pub request_id : Text
  pub api_key : Text
  pub provider : Text
  pub model : Text
  pub prompt_tokens : ℤ
  pub completion_tokens : ℤ
  pub latency_ms : F
  pub cost_usd : F
  pub cache_hit : Bool
  pub success : Bool
  pub error_message : Text
  pub timestamp : ℕ

-- One second of the steady clock.
abbrev pub second : ℕ
second = 1_000_000_000
