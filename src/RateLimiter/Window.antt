-- ===== src/RateLimiter/Window.antt =====
-- One bucket: when a request is let through, and how many are let through in a window.
use cost_optimized_llm_infer.Common.{
  ℕ, suc, ◌+◌, ◌≤◌, ◌<◌, ◌*◌, true, false, List, [], ◌∷◌, ◌≡◌, ◌↔◌, ◌⊎◌, ℤ, pos, ◌+ℤ◌, ◌≤ℤ◌, ◌<ℤ◌,
  +ℤ_parts, -ℤ_parts, if◌then◌else◌, arith, Bool-cases, inl, inr, All,
}
use cost_optimized_llm_infer.Types.{second}
use cost_optimized_llm_infer.RateLimiter.{Bucket, elapsed, reset_if_expired, reject, check_bucket}

-- A request is let through exactly when the bucket, reset if its minute is over, has seen fewer
-- requests than its limit and has room for the estimated tokens; an estimate that is not positive
-- needs no room.
pub check_bucket_iff :
    (est : ℤ) (checked answered : ℕ) (b : Bucket)
    → let b' = reset_if_expired checked b in
      ((check_bucket est checked answered b).1.allowed ≡ true) ↔ (
        (b'.requests_count <ℤ b'.rpm_limit)
        × ((est ≤ℤ pos 0) ⊎ (b'.tokens_count +ℤ est ≤ℤ b'.tpm_limit)))
unfolding check_bucket reject
check_bucket_iff est checked answered b = ground arith

-- A refusal changes no count, a request that is let through adds one; limits and tokens stay.
pub check_bucket_effect :
    (est : ℤ) (checked answered : ℕ) (b : Bucket)
    → let b' = reset_if_expired checked b in
      let (after, r) = check_bucket est checked answered b in
      after ≡ record b' {
        requests_count = if r.allowed then b'.requests_count +ℤ pos 1 else b'.requests_count;
      }
unfolding check_bucket reject
check_bucket_effect est checked answered b = ground arith

-- A refused client is told to wait between one second and sixty.
pub check_bucket_retry :
    (est : ℤ) (checked answered : ℕ) (b : Bucket)
    → (check_bucket est checked answered b).1.allowed ≡ false
    → let r = (check_bucket est checked answered b).1 in
      (pos 1 ≤ℤ r.retry_after_sec) × (r.retry_after_sec ≤ℤ pos 60)
unfolding check_bucket reject
check_bucket_retry est checked answered b h =
    ground
      (arith, -ℤ_parts (pos 60) (pos (elapsed (reset_if_expired checked b).window_start answered)))

-- When the minute is over, a request whose estimate fits the limits is let through.
pub check_bucket_recovers :
    (est : ℤ) (checked answered : ℕ) (b : Bucket)
    → b.window_start + 60 * second ≤ checked
    → pos 0 <ℤ b.rpm_limit
    → est ≤ℤ b.tpm_limit
    → (check_bucket est checked answered b).1.allowed ≡ true
unfolding check_bucket reject reset_if_expired
check_bucket_recovers est checked answered b over rpm tpm = ground (arith, +ℤ_parts (pos 0) est)

-- How many of a series of checks of one bucket are let through, and the bucket behind them. Each
-- check has its estimate and its two readings of the clock.
unfoldable pub admit : List (ℤ × ℕ × ℕ) → Bucket → ℕ × Bucket
admit [] b = (0, b)
admit ((est, checked, answered) ∷ rs) b =
    let (b', r) = check_bucket est checked answered b in
    let (n, last) = admit rs b' in (if r.allowed then suc n else n, last)

-- Within its minute a bucket is not reset; a request that is let through adds one, below the limit.
pub check_in_window :
    (est : ℤ) (checked answered : ℕ) (b : Bucket) (counted limit : ℕ)
    → b.requests_count ≡ pos counted
    → b.rpm_limit ≡ pos limit
    → checked < b.window_start + 60 * second
    → let (after, r) = check_bucket est checked answered b in
      (after.window_start ≡ b.window_start)
      × (after.rpm_limit ≡ pos limit)
      × (after.requests_count ≡ pos (if r.allowed then suc counted else counted))
      × (r.allowed ≡ true → counted < limit)
unfolding check_bucket reject reset_if_expired ◌+ℤ◌
check_in_window est checked answered b counted limit c l now = ground arith

-- Within the minute that a bucket counts, the requests that are let through together with those
-- already counted never exceed the limit, whatever the estimates.
pub admit-le-limit :
    (rs : List (ℤ × ℕ × ℕ)) (b : Bucket) (counted limit : ℕ)
    → b.requests_count ≡ pos counted
    → b.rpm_limit ≡ pos limit
    → counted ≤ limit
    → All (λ r. r.1 < b.window_start + 60 * second) rs
    → (admit rs b).0 + counted ≤ limit
unfolding admit
admit-le-limit [] b counted limit c l h w = omega arith
admit-le-limit ((est, checked, answered) ∷ rs) b counted limit c l h (now, later) =
    let (after, r) = check_bucket est checked answered b in
    let (start, same, counted', below) =
      check_in_window est checked answered b counted limit c l now in
    elim (Bool-cases r.allowed) [
      | inl passed ↦ rw passed (
          omega (
            arith,
            admit-le-limit rs after (suc counted) limit (rw passed at counted') same (below passed)
                (rw (← start) at later),
          ))
      | inr refused ↦ rw refused (
          admit-le-limit rs after counted limit (rw refused at counted') same h
            (rw (← start) at later))
    ]
