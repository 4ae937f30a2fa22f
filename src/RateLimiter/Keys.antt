-- ===== src/RateLimiter/Keys.antt =====
-- The buckets of different keys, and the limits that they hold.
use cost_optimized_llm_infer.Common.{
  sym, ◌∙◌, ℕ, ◌≡◌, ◌⊎◌, none, some, ite, Text, text_dec, ℤ, pos, ◌+ℤ◌, ◌≤ℤ◌, +ℤ_parts, arith,
  lookup, insert, lookup-insert, stored_ind, Option-cases, inl, inr,
}
use cost_optimized_llm_infer.RateLimiter.{
  RateLimitConfig, RateLimiter, Bucket, new_bucket, get_bucket, reset_if_expired, check_bucket,
  check_request, record_tokens,
}

-- The bucket of a key, made by the configuration if there is none.
abbrev pub bucket_of : RateLimitConfig → Text → (created : ℕ) → RateLimiter → Bucket
bucket_of cfg k created l = elim (lookup k l) [ none ↦ new_bucket cfg created | some b ↦ b ]

-- `check_request` is the check of the key's own bucket: its answer depends on no other key, the
-- bucket behind it is stored, and every other key is as before.
pub check_request_lem :
    (cfg : RateLimitConfig) (k j : Text) (est : ℤ) (created checked answered : ℕ) (l : RateLimiter)
    → let (after, r) = check_bucket est checked answered (bucket_of cfg k created l) in
      let (l', r') = check_request cfg k est created checked answered l in
      (r' ≡ r) × (lookup j l' ≡ ite (text_dec k j) (some after) (lookup j l))
unfolding check_request get_bucket
check_request_lem cfg k j est created checked answered l = elim (Option-cases (lookup k l)) [
  | inl e ↦
      let new = new_bucket cfg created in
      let after = (check_bucket est checked answered new).0 in
      ground (arith, lookup-insert j k after (insert k new l), lookup-insert j k new l)
  | inr (b, e) ↦ ground (arith, lookup-insert j k (check_bucket est checked answered b).0 l)
]

-- `record_tokens` adds to the tokens of the key's own bucket and to nothing else.
pub record_tokens_lem :
    (cfg : RateLimitConfig) (k j : Text) (tokens : ℤ) (created : ℕ) (l : RateLimiter)
    → let b = bucket_of cfg k created l in
      lookup j (record_tokens cfg k tokens created l)
      ≡ ite
          (text_dec k j)
          (some (record b { tokens_count = b.tokens_count +ℤ tokens }))
          (lookup j l)
unfolding record_tokens get_bucket
record_tokens_lem cfg k j tokens created l = elim (Option-cases (lookup k l)) [
  | inl e ↦
      let new = new_bucket cfg created in
      let after = record new { tokens_count = new.tokens_count +ℤ tokens } in
      ground (arith, lookup-insert j k after (insert k new l), lookup-insert j k new l)
  | inr (b, e) ↦
      ground (arith, lookup-insert j k (record b { tokens_count = b.tokens_count +ℤ tokens }) l)
]

-- A bucket with the limits of the configuration that has not let through more than it may.
pub record IsSound (cfg : RateLimitConfig) (b : Bucket) : Type 0 where
  pub rpm : b.rpm_limit ≡ cfg.default_rpm
  pub tpm : b.tpm_limit ≡ cfg.default_tpm
  pub nonneg : pos 0 ≤ℤ b.requests_count
  pub within : (b.requests_count ≤ℤ pos 0) ⊎ (b.requests_count ≤ℤ b.rpm_limit)

abbrev pub AllSound : RateLimitConfig → RateLimiter → Type 0
AllSound cfg l = (k : Text) (b : Bucket) → lookup k l ≡ some b → IsSound cfg b

new_bucket-IsSound : (cfg : RateLimitConfig) (created : ℕ) → IsSound cfg (new_bucket cfg created)
unfolding new_bucket
new_bucket-IsSound cfg created = ground arith

check_bucket-IsSound :
    (cfg : RateLimitConfig) (est : ℤ) (checked answered : ℕ) (b : Bucket)
    → IsSound cfg b
    → IsSound cfg (check_bucket est checked answered b).0
unfolding check_bucket reset_if_expired
check_bucket-IsSound cfg est checked answered b s =
    ground (arith, +ℤ_parts b.requests_count (pos 1), +ℤ_parts (pos 0) (pos 1))

bucket_of-IsSound :
    (cfg : RateLimitConfig) (k : Text) (created : ℕ) (l : RateLimiter)
    → AllSound cfg l
    → IsSound cfg (bucket_of cfg k created l)
bucket_of-IsSound cfg k created l h = elim (Option-cases (lookup k l)) [
  | inl e ↦ rw (e, bucket_of) (new_bucket-IsSound cfg created)
  | inr (b, e) ↦ rw (e, bucket_of) (h k b e)
]

-- A check keeps every bucket at the limits of the configuration, whoever owns its key, and never
-- counts more requests than a limit that is not negative allows.
pub check_request-AllSound :
    (cfg : RateLimitConfig) (k : Text) (est : ℤ) (created checked answered : ℕ) (l : RateLimiter)
    → AllSound cfg l
    → AllSound cfg (check_request cfg k est created checked answered l).0
check_request-AllSound cfg k est created checked answered l h j b e =
    let sound =
      check_bucket-IsSound cfg est checked answered (bucket_of cfg k created l)
        (bucket_of-IsSound cfg k created l h) in
    let (_, stored) = check_request_lem cfg k j est created checked answered l in
    stored_ind (IsSound cfg) k j _ b (lookup j l) (sym stored ∙ e) sound (h j b)

-- Recording tokens keeps every bucket so.
pub record_tokens-AllSound :
    (cfg : RateLimitConfig) (k : Text) (tokens : ℤ) (created : ℕ) (l : RateLimiter)
    → AllSound cfg l
    → AllSound cfg (record_tokens cfg k tokens created l)
record_tokens-AllSound cfg k tokens created l h j b e =
    let s = bucket_of-IsSound cfg k created l h in
    let sound : IsSound cfg (record (bucket_of cfg k created l) {
      tokens_count = (bucket_of cfg k created l).tokens_count +ℤ tokens;
    }) =
      record { rpm = s.rpm; tpm = s.tpm; nonneg = s.nonneg; within = s.within } in
    let stored = record_tokens_lem cfg k j tokens created l in
    stored_ind (IsSound cfg) k j _ b (lookup j l) (sym stored ∙ e) sound (h j b)
