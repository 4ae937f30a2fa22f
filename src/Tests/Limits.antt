-- ===== src/Tests/Limits.antt =====
-- Runs of the rate limiter with a limit of two requests and a hundred tokens a minute.
use cost_optimized_llm_infer.Common.{
  ℕ, ◌*◌, ◌≤◌, true, List, [], ◌∷◌, none, ◌≡◌, ◌↔◌, ◌⊎◌, inr, refl, arith, ℤ, pos, ◌+ℤ◌, ◌≤ℤ◌, ◌<ℤ◌,
  codes, lookup, stored_ind,
}
use mathlib.Core.Option.{none-ne-some}
use cost_optimized_llm_infer.RateLimiter.{Bucket, RateLimiter, reset_if_expired, check_bucket}
use cost_optimized_llm_infer.RateLimiter.Window.{check_bucket_iff, admit}
use cost_optimized_llm_infer.RateLimiter.Calls.{Call, asked, let_through}
use cost_optimized_llm_infer.RateLimiter.Traffic.{let_through-le-twice}
use cost_optimized_llm_infer.RateLimiter.Keys.{AllSound, IsSound}
use cost_optimized_llm_infer.Tests.Values.{two_a_minute}

-- One request and ninety tokens have been counted since time zero.
abbrev used : Bucket
used = record {
  rpm_limit = pos 2;
  tpm_limit = pos 100;
  requests_count = pos 1;
  tokens_count = pos 90;
  window_start = 0;
}

abbrev limiter : RateLimiter
limiter = (codes "k", used) ∷ []

check_bucket_iff_example : ((check_bucket (pos 20) 5 6 used).1.allowed ≡ true) ↔ (
    ((reset_if_expired 5 used).requests_count <ℤ (reset_if_expired 5 used).rpm_limit)
    × ((pos 20 ≤ℤ pos 0)
        ⊎ ((reset_if_expired 5 used).tokens_count +ℤ pos 20
            ≤ℤ (reset_if_expired 5 used).tpm_limit)))
check_bucket_iff_example = check_bucket_iff (pos 20) 5 6 used

abbrev attempts : List (ℤ × ℕ × ℕ)
attempts = (pos 5, 1, 1) ∷ (pos 5, 2, 2) ∷ []

limiter-AllSound : AllSound two_a_minute limiter
unfolding lookup ◌+ℤ◌
limiter-AllSound k b e =
    stored_ind (IsSound two_a_minute) (codes "k") k used b none e
      (record { rpm = refl; tpm = refl; nonneg = omega arith; within = inr (omega arith) })
      (λ h. absurd (none-ne-some b h))

-- The window of the bucket ends within the minute of these three: one counts in it, two behind.
abbrev burst : List (ℤ × ℕ × ℕ)
burst =
    (pos 5, 59_000_000_000, 59_000_000_000)
    ∷ (pos 5, 61_000_000_000, 61_000_000_000)
    ∷ (pos 5, 62_000_000_000, 62_000_000_000)
    ∷ []

-- All three are let through, one more than the limit.
burst_passes : (admit burst used).0 ≡ 3
unfolding admit check_bucket reset_if_expired ◌+ℤ◌
burst_passes = refl

-- Two checks of the key and one of another, around a record of tokens.
abbrev traffic : List Call
traffic =
    asked (codes "k") (pos 5) 0 59_000_000_000 59_000_000_000
    ∷ asked (codes "j") (pos 5) 0 60_000_000_000 60_000_000_000
    ∷ Call.used (codes "k") (pos 7) 0
    ∷ asked (codes "k") (pos 5) 0 61_000_000_000 61_000_000_000
    ∷ []

let_through-le-twice_example : let_through two_a_minute (codes "k") traffic limiter ≤ 2 * 2
let_through-le-twice_example =
    let_through-le-twice two_a_minute (codes "k") traffic limiter 59_000_000_000 2 refl
      limiter-AllSound
      (
        inr (omega arith, omega arith),
        (inr (omega arith, omega arith), (tt, (inr (omega arith, omega arith), tt))),
      )
