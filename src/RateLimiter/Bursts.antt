-- ===== src/RateLimiter/Bursts.antt =====
-- How many requests src/middleware/rate_limiter.cpp lets through in any minute, across resets.
use cost_optimized_llm_infer.Common.{
  ℕ, suc, ◌+◌, ◌*◌, ◌≤◌, ◌<◌, List, [], ◌∷◌, ◌≡◌, refl, ap, ℤ, pos, leb, arith, Bool-cases, inl,
  inr, All, All-map_of,
}
use cost_optimized_llm_infer.Types.{second}
use cost_optimized_llm_infer.RateLimiter.{Bucket, reset_if_expired, check_bucket}
use cost_optimized_llm_infer.RateLimiter.Window.{admit, check_in_window, admit-le-limit}

-- A bucket that has just been reset.
abbrev pub renewed : ℕ → Bucket → Bucket
renewed now b = record b { requests_count = pos 0; tokens_count = pos 0; window_start = now }

reset_over :
    (now : ℕ) (b : Bucket)
    → b.window_start + 60 * second ≤ now
    → reset_if_expired now b ≡ reset_if_expired now (renewed now b)
unfolding reset_if_expired
reset_over now b over = ground arith

pub check_over :
    (est : ℤ) (checked answered : ℕ) (b : Bucket)
    → b.window_start + 60 * second ≤ checked
    → check_bucket est checked answered b ≡ check_bucket est checked answered (renewed checked b)
unfolding check_bucket
check_over est checked answered b over = rw (reset_over checked b over) refl

admit_over :
    (est : ℤ) (checked answered : ℕ) (rs : List (ℤ × ℕ × ℕ)) (b : Bucket)
    → b.window_start + 60 * second ≤ checked
    → admit ((est, checked, answered) ∷ rs) b
      ≡ admit ((est, checked, answered) ∷ rs) (renewed checked b)
unfolding admit
admit_over est checked answered rs b over = rw (check_over est checked answered b over) refl

-- In any minute, whenever it starts and wherever the bucket's own windows begin and end, the
-- requests that are let through together with those already counted are at most twice the limit.
pub admit-le-twice :
    (rs : List (ℤ × ℕ × ℕ)) (b : Bucket) (from counted limit : ℕ)
    → b.requests_count ≡ pos counted
    → b.rpm_limit ≡ pos limit
    → counted ≤ limit
    → All (λ r. (from ≤ r.1) × (r.1 < from + 60 * second)) rs
    → (admit rs b).0 + counted ≤ 2 * limit
unfolding admit
admit-le-twice [] b from counted limit c l h w = omega arith
admit-le-twice ((est, checked, answered) ∷ rs) b from counted limit c l h ((ge, lt), later) =
    elim (Bool-cases (leb (b.window_start + 60 * second) checked)) [
      | inl over ↦
          let bound =
            admit-le-limit ((est, checked, answered) ∷ rs) (renewed checked b) 0 limit refl l
              (omega arith)
              (
                omega arith,
                All-map_of (λ r. (from ≤ r.1) × (r.1 < from + 60 * second))
                    (λ r. r.1 < checked + 60 * second) rs (λ r p. omega (arith, p.1)) later,
              ) in
          omega (arith, bound, ap (λ p. p.0) (admit_over est checked answered rs b (ground arith)))
      | inr here ↦
          let (after, r) = check_bucket est checked answered b in
          let (start, same, counted', below) =
            check_in_window est checked answered b counted limit c l (ground arith) in
          elim (Bool-cases r.allowed) [
            | inl passed ↦ rw passed (
                omega (
                  arith,
                  admit-le-twice rs after from (suc counted) limit (rw passed at counted') same
                      (below passed) later,
                ))
            | inr refused ↦
                rw refused
                  (admit-le-twice rs after from counted limit (rw refused at counted') same h later)
          ]
    ]
