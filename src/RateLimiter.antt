-- ===== src/RateLimiter.antt =====
-- include/middleware/rate_limiter.h and src/middleware/rate_limiter.cpp. A reading of the steady
-- clock is an argument of the operation that makes it; the clock is steady, so a difference of a
-- later and an earlier reading is not negative.
pub mod Window
pub mod Bursts
pub mod Calls
pub mod Traffic
pub mod Keys
use cost_optimized_llm_infer.Common.{
  ℕ, ◌-◌, ◌/◌, Bool, true, false, ◌&&◌, none, some, Text, ℤ, pos, ◌+ℤ◌, ◌-ℤ◌, ltb_ℤ, leb_ℤ, max_ℤ,
  Dict, lookup, insert, erase, leb, if◌then◌else◌,
}
use cost_optimized_llm_infer.Types.{second}

pub record RateLimitConfig : Type 0 where
  pub default_rpm : ℤ
  pub default_tpm : ℤ

pub record Bucket : Type 0 where
  pub rpm_limit : ℤ
  pub tpm_limit : ℤ
  pub requests_count : ℤ
  pub tokens_count : ℤ
  pub window_start : ℕ

-- `buckets_`
abbrev pub RateLimiter : Type 0
RateLimiter = Dict Bucket

pub record Result : Type 0 where
  pub allowed : Bool
  pub remaining_rpm : ℤ
  pub remaining_tpm : ℤ
  pub retry_after_sec : ℤ

-- Whole seconds between two readings of the clock.
abbrev pub elapsed : (start now : ℕ) → ℕ
elapsed start now = (now - start) / second

unfoldable pub new_bucket : RateLimitConfig → ℕ → Bucket
new_bucket cfg created = record {
  rpm_limit = cfg.default_rpm;
  tpm_limit = cfg.default_tpm;
  requests_count = pos 0;
  tokens_count = pos 0;
  window_start = created;
}

unfoldable pub get_bucket :
    RateLimitConfig → Text → (created : ℕ) → RateLimiter → RateLimiter × Bucket
get_bucket cfg api_key created l = elim (lookup api_key l) [
  | none ↦ let b = new_bucket cfg created in (insert api_key b l, b)
  | some b ↦ (l, b)
]

unfoldable pub reset_if_expired : (now : ℕ) → Bucket → Bucket
reset_if_expired now b =
    if leb 60 (elapsed b.window_start now)
    then record b { requests_count = pos 0; tokens_count = pos 0; window_start = now }
    else b

unfoldable pub reject : (answered : ℕ) → Bucket → Result
reject answered b = record {
  allowed = false;
  remaining_rpm = b.rpm_limit -ℤ b.requests_count;
  remaining_tpm = b.tpm_limit -ℤ b.tokens_count;
  retry_after_sec = max_ℤ (pos 1) (pos 60 -ℤ pos (elapsed b.window_start answered));
}

-- The body of `check_request` on its bucket; `checked` and `answered` are two readings of the clock.
unfoldable pub check_bucket :
    (estimated_tokens : ℤ) → (checked answered : ℕ) → Bucket → Bucket × Result
check_bucket estimated_tokens checked answered bucket =
    if leb_ℤ b.rpm_limit b.requests_count
    then (b, reject answered b)
    else if ltb_ℤ (pos 0) estimated_tokens && ltb_ℤ b.tpm_limit (b.tokens_count +ℤ estimated_tokens)
    then (b, reject answered b)
    else (
      record b { requests_count = b.requests_count +ℤ pos 1 },
      record {
        allowed = true;
        remaining_rpm = b.rpm_limit -ℤ b.requests_count;
        remaining_tpm = b.tpm_limit -ℤ b.tokens_count;
        retry_after_sec = pos 0;
      },
    )
  where
    b : Bucket
    b = reset_if_expired checked bucket

unfoldable pub check_request :
    RateLimitConfig
    → Text
    → (estimated_tokens : ℤ) → (created checked answered : ℕ) → RateLimiter
    → RateLimiter × Result
check_request cfg api_key estimated_tokens created checked answered l =
    let (l', bucket) = get_bucket cfg api_key created l in
    let (b, r) = check_bucket estimated_tokens checked answered bucket in (insert api_key b l', r)

unfoldable pub record_tokens :
    RateLimitConfig → Text → (tokens : ℤ) → (created : ℕ) → RateLimiter → RateLimiter
record_tokens cfg api_key tokens created l =
    let (l', b) = get_bucket cfg api_key created l in
    insert api_key (record b { tokens_count = b.tokens_count +ℤ tokens }) l'

unfoldable pub reset : Text → RateLimiter → RateLimiter
reset api_key l = erase api_key l
