-- ===== src/RateLimiter/Calls.antt =====
-- The calls of src/middleware/rate_limiter.cpp by the handler, for one key and for the others.
use cost_optimized_llm_infer.Common.{
  ℕ, suc, ◌+◌, ◌*◌, ◌≤◌, ◌<◌, true, List, [], ◌∷◌, some, ite, Text, text_dec, ◌≡◌, ◌≢◌, ◌⊎◌, refl,
  ap, ◌∙◌, ℤ, pos, lookup, arith, if◌then◌else◌, if_pos, if_neg,
}
use cost_optimized_llm_infer.Types.{second}
use cost_optimized_llm_infer.RateLimiter.{
  RateLimitConfig, RateLimiter, Bucket, Result, check_bucket, check_request, record_tokens,
}
use cost_optimized_llm_infer.RateLimiter.Window.{check_in_window}
use cost_optimized_llm_infer.RateLimiter.Bursts.{renewed, check_over}
use cost_optimized_llm_infer.RateLimiter.Keys.{bucket_of, check_request_lem, record_tokens_lem}

-- The calls of the rate limiter by the handler.
pub data Call : Type 0 where
  asked : (api_key : Text) → (estimated : ℤ) → (created checked answered : ℕ) → Call
  used : (api_key : Text) → (tokens : ℤ) → (created : ℕ) → Call

-- A check of the key falls into a minute.
abbrev pub InMinute : Text → (from : ℕ) → Call → Type 0
InMinute k from (asked j est created checked answered) =
    (k ≢ j) ⊎ ((from ≤ checked) × (checked < from + 60 * second))
InMinute k from (used j tokens created) = Unit

-- Behind its window a bucket is reset before the check.
pub check_renewed :
    (est : ℤ) (checked answered : ℕ) (b : Bucket) (limit : ℕ)
    → b.rpm_limit ≡ pos limit
    → b.window_start + 60 * second ≤ checked
    → let (after, r) = check_bucket est checked answered b in
      (after.window_start ≡ checked)
      × (after.rpm_limit ≡ pos limit)
      × (after.requests_count ≡ pos (if r.allowed then 1 else 0))
      × (r.allowed ≡ true → 0 < limit)
check_renewed est checked answered b limit m over =
    rw (check_over est checked answered b over)
      (check_in_window est checked answered (renewed checked b) 0 limit refl m (omega arith))

module _ (cfg : RateLimitConfig) (k : Text) where
  -- How many checks of the key are let through in a sequence of calls.
  unfoldable pub let_through : List Call → RateLimiter → ℕ
  let_through [] l = 0
  let_through (asked j est created checked answered ∷ calls) l =
      let (l', r) = check_request cfg j est created checked answered l in
      let rest = let_through calls l' in
      ite (text_dec j k) (if r.allowed then suc rest else rest) rest
  let_through (used j tokens created ∷ calls) l =
      let_through calls (record_tokens cfg j tokens created l)

  -- The bucket of the key has counted so many requests, and has the limit.
  abbrev pub Counts : ℕ → ℕ → RateLimiter → Type 0
  Counts counted limit l =
      (created : ℕ)
      → ((bucket_of cfg k created l).requests_count ≡ pos counted)
        × ((bucket_of cfg k created l).rpm_limit ≡ pos limit)

  pub Counts-some :
      (counted limit : ℕ) (l : RateLimiter) (b : Bucket)
      → lookup k l ≡ some b
      → b.requests_count ≡ pos counted
      → b.rpm_limit ≡ pos limit
      → Counts counted limit l
  Counts-some counted limit l b e c m created = rw (e, bucket_of) (c, m)

  -- Behind a call for another key.
  pub lookup-asked_other :
      (j : Text) (est : ℤ) (created checked answered : ℕ) (l : RateLimiter)
      → ¬ (j ≡ k)
      → lookup k (check_request cfg j est created checked answered l).0 ≡ lookup k l
  lookup-asked_other j est created checked answered l ne =
      (check_request_lem cfg j k est created checked answered l).1 ∙ if_neg (text_dec j k) ne _ _

  pub lookup-used_other :
      (j : Text) (tokens : ℤ) (created : ℕ) (l : RateLimiter)
      → ¬ (j ≡ k)
      → lookup k (record_tokens cfg j tokens created l) ≡ lookup k l
  lookup-used_other j tokens created l ne =
      record_tokens_lem cfg j k tokens created l ∙ if_neg (text_dec j k) ne _ _

  -- Behind a call for the key.
  lookup-asked :
      (est : ℤ) (created checked answered : ℕ) (l : RateLimiter)
      → lookup k (check_request cfg k est created checked answered l).0
        ≡ some (check_bucket est checked answered (bucket_of cfg k created l)).0
  lookup-asked est created checked answered l =
      (check_request_lem cfg k k est created checked answered l).1 ∙ if_pos (text_dec k k) refl _ _

  pub lookup-used :
      (tokens : ℤ) (created : ℕ) (l : RateLimiter)
      → (b : Bucket) × (lookup k (record_tokens cfg k tokens created l) ≡ some b)
        × (b.requests_count ≡ (bucket_of cfg k created l).requests_count)
        × (b.rpm_limit ≡ (bucket_of cfg k created l).rpm_limit)
        × (b.window_start ≡ (bucket_of cfg k created l).window_start)
  lookup-used tokens created l = (
    _,
    record_tokens_lem cfg k k tokens created l ∙ if_pos (text_dec k k) refl _ _,
    refl,
    refl,
    refl,
  )

  pub let_through-asked_other :
      (j : Text) (est : ℤ) (created checked answered : ℕ) (calls : List Call) (l : RateLimiter)
      → ¬ (j ≡ k)
      → let_through (asked j est created checked answered ∷ calls) l
        ≡ let_through calls (check_request cfg j est created checked answered l).0
  unfolding let_through
  let_through-asked_other j est created checked answered calls l ne = if_neg (text_dec j k) ne _ _

  let_through-asked :
      (est : ℤ) (created checked answered : ℕ) (calls : List Call) (l : RateLimiter)
      → let rest = let_through calls (check_request cfg k est created checked answered l).0 in
        let_through (asked k est created checked answered ∷ calls) l ≡ (
          if (check_bucket est checked answered (bucket_of cfg k created l)).1.allowed
          then suc rest
          else rest)
  unfolding let_through
  let_through-asked est created checked answered calls l =
      if_pos (text_dec k k) refl _ _
      ∙ ap
          (λ b.
            if b
            then suc (let_through calls (check_request cfg k est created checked answered l).0)
            else let_through calls (check_request cfg k est created checked answered l).0)
          (ap (λ (r : Result). r.allowed)
            (check_request_lem cfg k k est created checked answered l).0)

  -- A call for the key, by its bucket.
  pub asked_bucket :
      (est : ℤ) (created checked answered : ℕ) (calls : List Call) (l : RateLimiter) (b : Bucket)
      → bucket_of cfg k created l ≡ b
      → let l' = (check_request cfg k est created checked answered l).0 in
        (lookup k l' ≡ some (check_bucket est checked answered b).0)
        × (let_through (asked k est created checked answered ∷ calls) l ≡ (
            if (check_bucket est checked answered b).1.allowed
            then suc (let_through calls l')
            else let_through calls l'))
  asked_bucket est created checked answered calls l b same = (
    lookup-asked est created checked answered l
        ∙ ap (λ x. some (check_bucket est checked answered x).0) same,
    let_through-asked est created checked answered calls l
        ∙ ap
            (λ x.
              let rest = let_through calls (check_request cfg k est created checked answered l).0 in
              if (check_bucket est checked answered x).1.allowed then suc rest else rest)
            same,
  )
