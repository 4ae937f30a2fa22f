-- ===== src/RateLimiter/Traffic.antt =====
-- The requests of one key that src/middleware/rate_limiter.cpp lets through in a minute, among the
-- calls for all keys.
use mathlib.Core.Path.{subst}
use cost_optimized_llm_infer.Common.{
  ℕ, suc, ◌+◌, ◌*◌, ◌≤◌, ◌<◌, List, [], ◌∷◌, some, Text, text_dec, ◌≡◌, ◌⊎◌, refl, sym, ap, ◌∙◌, ℤ,
  pos, leb, lookup, arith, Bool-cases, Option-cases, ◌≤ℤ◌, negsuc, inl, inr, All,
}
use cost_optimized_llm_infer.Types.{second}
use cost_optimized_llm_infer.RateLimiter.{
  RateLimitConfig, RateLimiter, Bucket, new_bucket, check_bucket, check_request, record_tokens,
}
use cost_optimized_llm_infer.RateLimiter.Window.{check_in_window}
use cost_optimized_llm_infer.RateLimiter.Keys.{AllSound, bucket_of}
use cost_optimized_llm_infer.RateLimiter.Calls.{
  Call, InMinute, check_renewed, let_through, Counts, Counts-some, lookup-asked_other,
  lookup-used_other, lookup-used, let_through-asked_other, asked_bucket, asked, used,
}

module _ (cfg : RateLimitConfig) (k : Text) where
  -- While the window of the bucket lasts.
  in_window :
      (calls : List Call) (l : RateLimiter) (b : Bucket) (from counted limit : ℕ)
      → lookup k l ≡ some b
      → b.requests_count ≡ pos counted
      → b.rpm_limit ≡ pos limit
      → counted ≤ limit
      → from ≤ b.window_start
      → All (InMinute k from) calls
      → let_through cfg k calls l + counted ≤ limit
  unfolding let_through
  in_window [] l b from counted limit e c m h start w = omega arith
  in_window (used j tokens created ∷ calls) l b from counted limit e c m h start (_, later) =
      elim (text_dec j k) [
        | no ne ↦
            in_window calls _ b from counted limit
              (lookup-used_other cfg k j tokens created l ne ∙ e) c m h start later
        | yes p ↦
            let (b', e', c', m', s') = lookup-used cfg k tokens created l in
            let same : bucket_of cfg k created l ≡ b = rw (e, bucket_of) refl in
            subst
              (λ i.
                let_through cfg k calls (record_tokens cfg i tokens created l) + counted ≤ limit)
              (sym p)
              (in_window calls _ b' from counted limit e'
                (c' ∙ ap (λ (x : Bucket). x.requests_count) same ∙ c)
                (m' ∙ ap (λ (x : Bucket). x.rpm_limit) same ∙ m) h
                (omega (arith, start, s', ap (λ (x : Bucket). x.window_start) same)) later)
      ]
  in_window (asked j est created checked answered ∷ calls) l b from counted limit e c m h start
        (w, later) =
      elim (text_dec j k) [
        | no ne ↦
            subst (λ n. n + counted ≤ limit)
              (sym (let_through-asked_other cfg k j est created checked answered calls l ne))
              (in_window calls _ b from counted limit
                (lookup-asked_other cfg k j est created checked answered l ne ∙ e) c m h start
                later)
        | yes p ↦
            let here : checked < b.window_start + 60 * second = elim w [
              | inl ne ↦ absurd (ne (sym p))
              | inr (ge, lt) ↦ omega arith
            ] in
            let (after, r) = check_bucket est checked answered b in
            let (begun, same, counted', below) =
              check_in_window est checked answered b counted limit c m here in
            let (stored, told) =
              asked_bucket cfg k est created checked answered calls l b (rw (e, bucket_of) refl) in
            let l' = (check_request cfg k est created checked answered l).0 in
            subst
              (λ i.
                let_through cfg k (asked i est created checked answered ∷ calls) l + counted
                ≤ limit)
              (sym p)
              (subst (λ n. n + counted ≤ limit) (sym told)
                (elim (Bool-cases r.allowed) [
                  | inl passed ↦ rw passed (
                      omega (
                        arith,
                        in_window calls l' after from (suc counted) limit stored
                            (rw passed at counted') same (below passed)
                            (omega (arith, start, begun)) later,
                      ))
                  | inr refused ↦ rw refused (
                      in_window calls l' after from counted limit stored (rw refused at counted')
                        same h (omega (arith, start, begun)) later)
                ]))
      ]

  -- Behind a call for another key the bucket is as before.
  Counts-lookup :
      (counted limit : ℕ) (l l' : RateLimiter)
      → lookup k l' ≡ lookup k l
      → Counts cfg k counted limit l
      → Counts cfg k counted limit l'
  Counts-lookup counted limit l l' e h created = rw (e, bucket_of) (h created)

  across_windows :
      (calls : List Call) (l : RateLimiter) (from counted limit : ℕ)
      → Counts cfg k counted limit l
      → counted ≤ limit
      → All (InMinute k from) calls
      → let_through cfg k calls l + counted ≤ 2 * limit
  unfolding let_through
  across_windows [] l from counted limit known h w = omega arith
  across_windows (used j tokens created ∷ calls) l from counted limit known h (_, later) =
      elim (text_dec j k) [
        | no ne ↦
            across_windows calls _ from counted limit
              (Counts-lookup counted limit l _ (lookup-used_other cfg k j tokens created l ne)
                known)
              h later
        | yes p ↦
            let (b', e', c', m', _) = lookup-used cfg k tokens created l in
            subst
              (λ i.
                let_through cfg k calls (record_tokens cfg i tokens created l) + counted
                ≤ 2 * limit)
              (sym p)
              (across_windows calls _ from counted limit
                (Counts-some cfg k counted limit _ b' e' (c' ∙ (known created).0)
                  (m' ∙ (known created).1))
                h later)
      ]
  across_windows (asked j est created checked answered ∷ calls) l from counted limit known h
        (w, later) =
      elim (text_dec j k) [
        | no ne ↦
            subst (λ n. n + counted ≤ 2 * limit)
              (sym (let_through-asked_other cfg k j est created checked answered calls l ne))
              (across_windows calls _ from counted limit
                (Counts-lookup counted limit l _
                  (lookup-asked_other cfg k j est created checked answered l ne) known)
                h later)
        | yes p ↦
            let (ge, lt) : (from ≤ checked) × (checked < from + 60 * second) = elim w [
              | inl ne ↦ absurd (ne (sym p))
              | inr range ↦ range
            ] in
            let b = bucket_of cfg k created l in
            let (c, m) = known created in
            let (stored, told) = asked_bucket cfg k est created checked answered calls l b refl in
            let l' = (check_request cfg k est created checked answered l).0 in
            subst
              (λ i.
                let_through cfg k (asked i est created checked answered ∷ calls) l + counted
                ≤ 2 * limit)
              (sym p)
              (subst (λ n. n + counted ≤ 2 * limit) (sym told)
                (elim (Bool-cases (leb (b.window_start + 60 * second) checked)) [
                  | inl over ↦
                      let (after, r) = check_bucket est checked answered b in
                      let (begun, same, counted', below) =
                        check_renewed est checked answered b limit m (ground arith) in
                      elim (Bool-cases r.allowed) [
                        | inl passed ↦ rw passed (
                            omega (
                              arith,
                              in_window calls l' after from 1 limit stored (rw passed at counted')
                                  same (below passed) (omega (arith, ge, begun)) later,
                            ))
                        | inr refused ↦ rw refused (
                            omega (
                              arith,
                              in_window calls l' after from 0 limit stored (rw refused at counted')
                                  same (omega arith) (omega (arith, ge, begun)) later,
                            ))
                      ]
                  | inr here ↦
                      let (after, r) = check_bucket est checked answered b in
                      let (_, same, counted', below) =
                        check_in_window est checked answered b counted limit c m (ground arith) in
                      elim (Bool-cases r.allowed) [
                        | inl passed ↦ rw passed (
                            omega (
                              arith,
                              across_windows calls l' from (suc counted) limit
                                  (Counts-some cfg k (suc counted) limit l' after stored
                                    (rw passed at counted') same)
                                  (below passed) later,
                            ))
                        | inr refused ↦ rw refused (
                            across_windows calls l' from counted limit
                              (Counts-some cfg k counted limit l' after stored
                                (rw refused at counted') same)
                              h later)
                      ]
                ]))
      ]

  AllSound-Counts :
      (l : RateLimiter) (limit : ℕ)
      → AllSound cfg l
      → cfg.default_rpm ≡ pos limit
      → (counted : ℕ) × (counted ≤ limit) × Counts cfg k counted limit l
  unfolding new_bucket
  AllSound-Counts l limit sound m = elim (Option-cases (lookup k l)) [
    | inl e ↦ (0, omega arith, λ created. rw (e, bucket_of) (refl, m))
    | inr (b, e) ↦
        let s = sound k b e in
        let (counted, c, le) =
          count_of b.requests_count b.rpm_limit limit s.nonneg s.within (s.rpm ∙ m) in
        (counted, le, Counts-some cfg k counted limit l b e c (s.rpm ∙ m))
  ]
    where
      count_of :
          (n rpm : ℤ) (limit : ℕ)
          → pos 0 ≤ℤ n
          → ((n ≤ℤ pos 0) ⊎ (n ≤ℤ rpm))
          → rpm ≡ pos limit
          → (counted : ℕ) × (n ≡ pos counted) × (counted ≤ limit)
      count_of (pos c) rpm limit nonneg within m = (c, refl, ground arith)
      count_of (negsuc c) rpm limit nonneg within m = absurd (ground arith)

  -- Whatever calls come for this key and for others, and in whatever order, in any minute at most
  -- twice as many requests of the key are let through as the configuration allows in a minute, if
  -- this limit is not negative and the buckets at its beginning have the limits of the
  -- configuration and have not let through more.
  pub let_through-le-twice :
      (calls : List Call) (l : RateLimiter) (from limit : ℕ)
      → cfg.default_rpm ≡ pos limit
      → AllSound cfg l
      → All (InMinute k from) calls
      → let_through cfg k calls l ≤ 2 * limit
  let_through-le-twice calls l from limit m sound w =
      let (counted, le, known) = AllSound-Counts l limit sound m in
      omega (arith, across_windows calls l from counted limit known le w)
