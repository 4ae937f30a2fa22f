-- ===== src/Logger.antt =====
-- include/middleware/logger.h and src/middleware/logger.cpp: the lines of the log, with their level.
-- `fixed` is the formatting of a `double` with a number of decimals.
pub mod Secrets
use cost_optimized_llm_infer.Common.{
  ℕ, Bool, true, false, ◌++◌, Text, codes, is_empty, take, length, show_ℕ, ℤ, show_ℤ, if◌then◌else◌,
}
use cost_optimized_llm_infer.Types.{ChatRequest, ChatResponse}

pub data Level : Type 0 where
  debug info warn error : Level

pub record Line : Type 0 where
  pub level : Level
  pub text : Text

abbrev show_bool : Bool → Text
show_bool true = codes "true"
show_bool false = codes "false"

-- What a line shows of a key.
unfoldable pub shown_key : Text → Text
shown_key api_key = if is_empty api_key then codes "none" else take 8 api_key ++ codes "..."

module _ {F : Type 0} where
  unfoldable pub log_request : ChatRequest F → Line
  log_request req = record {
    level = info;
    text =
        codes "[REQ] id="
        ++ (req.request_id
            ++ (codes " model="
                ++ (req.model
                    ++ (codes " messages="
                        ++ (show_ℕ (length req.messages)
                            ++ (codes " stream="
                                ++ (show_bool req.stream
                                    ++ (codes " key=" ++ shown_key req.api_key))))))));
  }

  unfoldable pub log_response : (fixed : ℕ → F → Text) → ChatResponse F → Line
  log_response fixed resp = record {
    level = info;
    text =
        codes "[RES] id="
        ++ (resp.request_id
            ++ (codes " provider="
                ++ (resp.provider
                    ++ (codes " model="
                        ++ (resp.model
                            ++ (codes " tokens="
                                ++ (show_ℤ resp.total_tokens
                                    ++ (codes " latency="
                                        ++ (fixed 1 resp.latency_ms
                                            ++ (codes "ms cost=$"
                                                ++ (fixed 6 resp.cost_usd
                                                    ++ (codes " cache="
                                                        ++ (if resp.from_cache
                                                            then codes "HIT"
                                                            else codes "MISS")))))))))))));
  }

unfoldable pub log_error : (request_id : Text) → (status : ℤ) → (msg : Text) → Line
log_error request_id status msg = record {
  level = error;
  text =
      codes "[ERR] id="
      ++ (request_id ++ (codes " status=" ++ (show_ℤ status ++ (codes " error=" ++ msg))));
}

unfoldable pub log_cache_hit : (request_id : Text) → Line
log_cache_hit request_id = record {
  level = info;
  text = codes "[CACHE] id=" ++ (request_id ++ codes " HIT");
}

unfoldable pub log_rate_limited : (request_id api_key : Text) → Line
log_rate_limited request_id api_key = record {
  level = warn;
  text =
      codes "[RATE] id="
      ++ (request_id ++ (codes " key=" ++ (shown_key api_key ++ codes " THROTTLED")));
}
