-- ===== src/Tests/Values.antt =====
-- Exact numbers in millionths in the place of `double`, and the data that the runs share.
use cost_optimized_llm_infer.Common.{
  ℕ, suc, ◌*◌, ◌/◌, ◌^◌, Bool, true, false, not, ◌&&◌, List, [], ◌∷◌, none, Text, codes, length, ℤ,
  pos, negsuc, pos_part, ◌+ℤ◌, ◌-ℤ◌, ◌*ℤ◌, ltb_ℤ, show_ℤ, Double, IsOrdered, arith,
}
use cost_optimized_llm_infer.Types.{
  Message, ChatRequest, ChatResponse, ModelPricing, RequestMetrics, smart,
}
use cost_optimized_llm_infer.Cache.{CacheConfig}
use cost_optimized_llm_infer.RateLimiter.{RateLimitConfig}
use cost_optimized_llm_infer.Config.{ProviderConfig, GatewayConfig}

abbrev quot : ℤ → ℕ → ℤ
quot (pos a) n = pos (a / n)
quot (negsuc a) n = pos 0 -ℤ pos (suc a / n)

instance abbrev pub millionths : Double ℤ
millionths = record {
  lit = λ m k. pos (m * 10 ^ 6 / 10 ^ k);
  of_int = λ n. n *ℤ pos 1_000_000;
  add = λ a b. a +ℤ b;
  sub = λ a b. a -ℤ b;
  mul = λ a b. quot (a *ℤ b) 1_000_000;
  div = λ a b. quot (a *ℤ pos 1_000_000) (pos_part b);
  lt = λ a b. ltb_ℤ a b;
  eq = λ a b. not (ltb_ℤ a b) && not (ltb_ℤ b a);
  trunc = λ a. pos_part a / 1_000_000;
  to_string = λ a. show_ℤ a;
  print = λ a. show_ℤ a;
  to_int = λ a. quot a 1_000_000;
}

pub millionths-IsOrdered : IsOrdered ℤ
millionths-IsOrdered = record {
  lt_irrefl = λ x h. absurd (ground (arith, h));
  lt_trans = λ x y z h k. ground (arith, h, k);
  lt_cotrans = λ x y z number h. ground (arith, h);
}

-- A hash function with few values.
abbrev pub hash : Text → ℕ
hash t = length t

abbrev pub question : Message
question = record { role = codes "user"; content = codes "hi there" }

abbrev pub request_for : Text → ChatRequest ℤ
request_for model = record {
  request_id = codes "r1";
  api_key = codes "k";
  model = model;
  messages = question ∷ [];
  temperature = pos 700_000;
  max_tokens = pos 256;
  stream = false;
  user = none;
}

abbrev pub request : ChatRequest ℤ
request = request_for (codes "m")

abbrev pub response : ChatResponse ℤ
response = record {
  request_id = codes "r0";
  model = codes "m";
  provider = codes "a";
  content = codes "hello";
  prompt_tokens = pos 10;
  completion_tokens = pos 5;
  total_tokens = pos 15;
  latency_ms = pos 120_000_000;
  cost_usd = pos 30;
  from_cache = false;
}

-- Room for one entry, which lives ten seconds.
abbrev pub small_cache : CacheConfig
small_cache = record {
  enabled = true;
  ttl_seconds = pos 10;
  max_entries = pos 1;
  match_params = true;
}

abbrev pub two_a_minute : RateLimitConfig
two_a_minute = record { default_rpm = pos 2; default_tpm = pos 100 }

abbrev pub provider_named : Text → Bool → List Text → ProviderConfig
provider_named name enabled models = record {
  name = name;
  api_key = codes "secret";
  base_url = codes "http://localhost";
  timeout_ms = pos 30_000;
  max_retries = pos 2;
  weight = pos 1;
  enabled = enabled;
  models = models;
}

abbrev pub price_of : Text → Text → ℕ → ModelPricing ℤ
price_of provider model cost = record {
  provider = provider;
  model = model;
  input_cost_per_1k = pos cost;
  output_cost_per_1k = pos cost;
}

-- Two providers with one model each; the second one is cheaper.
abbrev pub gateway : GatewayConfig ℤ
gateway = record {
  server = record {
    host = codes "localhost";
    port = pos 8080;
    threads = pos 4;
    enable_cors = true;
    log_level = codes "info";
    admin_key = [];
  };
  cache = small_cache;
  rate_limit = two_a_minute;
  default_strategy = smart;
  providers =
      provider_named (codes "a") true (codes "big" ∷ [])
      ∷ provider_named (codes "b") true (codes "tiny" ∷ [])
      ∷ [];
  pricing =
      (codes "a:big", price_of (codes "a") (codes "big") 5000)
      ∷ (codes "b:tiny", price_of (codes "b") (codes "tiny") 200)
      ∷ [];
  model_aliases = (codes "fast", codes "b:tiny") ∷ [];
}

abbrev pub metrics_of : Text → ℕ → RequestMetrics ℤ
metrics_of key cost = record {
  request_id = codes "r1";
  api_key = key;
  provider = codes "a";
  model = codes "unknown";
  prompt_tokens = pos 10;
  completion_tokens = pos 5;
  latency_ms = pos 0;
  cost_usd = pos cost;
  cache_hit = false;
  success = true;
  error_message = [];
  timestamp = 0;
}
