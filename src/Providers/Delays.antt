-- ===== src/Providers/Delays.antt =====
-- Every end of `with_retry`, and the time that it sleeps.
use cost_optimized_llm_infer.Common.{
  ℕ, zero, suc, ◌+◌, ◌-◌, ◌*◌, ◌^◌, ◌≤◌, ◌<◌, List, [], ◌∷◌, Text, pos, ◌≡◌, ◌⊎◌, inl, inr, refl,
  ap, ◌∙◌, sym, arith, All, dec_lt,
}
use cost_optimized_llm_infer.Types.{ChatResponse}
use cost_optimized_llm_infer.Providers.{
  Reply, answered, raised, Retried, returned, rethrown, with_retry,
}
use cost_optimized_llm_infer.Providers.Retry.{backoff, Fail, with_retry_first, with_retry_last}
use cost_optimized_llm_infer.Chat.Answers.{Reply-cases}

abbrev pub sum : List ℕ → ℕ
sum [] = 0
sum (n ∷ ns) = n + sum ns

two_pow_suc : (n : ℕ) → 2 ^ suc n ≡ 2 * 2 ^ n
two_pow_suc n = omega arith

plus_zero : (n : ℕ) → n ≡ n + 0
plus_zero n = omega arith

zero_plus : (k : ℕ) → k ≡ 0 + k
zero_plus k = omega arith

plus_suc : (a k : ℕ) → a + suc k ≡ suc a + k
plus_suc a k = omega arith

sum-backoff : (a k : ℕ) → sum (backoff a k) + 100 * 2 ^ a ≡ 100 * 2 ^ (a + k)
sum-backoff a zero = omega (arith, ap (λ n. 2 ^ n) (plus_zero a))
sum-backoff a (suc k) =
    omega (arith, sum-backoff (suc a) k, two_pow_suc a, ap (λ n. 2 ^ n) (plus_suc a k))

plus_suc' : (a k : ℕ) → a + suc k ≡ suc (a + k)
plus_suc' a k = omega arith

pow_pos : (n : ℕ) → 1 ≤ 2 ^ n
pow_pos zero = omega arith
pow_pos (suc n) = omega (arith, pow_pos n, two_pow_suc n)

pow_mono : (m k : ℕ) → 2 ^ m ≤ 2 ^ (m + k)
pow_mono m zero = omega (arith, ap (λ n. 2 ^ n) (plus_zero m))
pow_mono m (suc k) =
    omega (arith, pow_mono m k, two_pow_suc (m + k), ap (λ n. 2 ^ n) (plus_suc' m k))

delay_small : (a rounds : ℕ) → a + rounds ≤ 25 → All (λ ms. ms < 2 ^ 31) (backoff a rounds)
delay_small a zero h = tt
delay_small a (suc rounds) h =
    let below = pow_mono a (24 - a) in
    (
      omega (arith, below, ap (λ n. 2 ^ n) (split a rounds h)),
      delay_small (suc a) rounds (omega arith),
    )
  where
    split : (a rounds : ℕ) → a + suc rounds ≤ 25 → a + (24 - a) ≡ 24
    split a rounds h = omega arith

total : (k : ℕ) → sum (backoff 0 k) + 100 ≡ 100 * 2 ^ k
total k = omega (arith, sum-backoff 0 k, ap (λ n. 2 ^ n) (zero_plus k))

-- The delays before at most 25 retries fit an `int`.
delays_fit : (n k : ℕ) → k ≤ n → (25 < n) ⊎ All (λ ms. ms < 2 ^ 31) (backoff 0 k)
delays_fit n k le = elim (dec_lt 25 n) [
  | yes many ↦ inl many
  | no few ↦ inr (delay_small 0 k (omega arith))
]

module _ {F : Type 0} where
  -- The attempts from `a` on: one of the first `n` answers, or they all raise and so does the next.
  first_answer :
      (n a : ℕ) (fn : ℕ → Reply F)
      → ((k : ℕ) × (resp : ChatResponse F) × (k ≤ n) × Fail a k fn × (fn (a + k) ≡ answered resp))
        ⊎ ((e : Text) × Fail a n fn × (fn (a + n) ≡ raised e))
  first_answer zero a fn = elim (Reply-cases (fn (a + 0))) [
    | inl (resp, ok) ↦ inl (0, resp, omega arith, tt, ok)
    | inr (e, bad) ↦ inr (e, tt, bad)
  ]
  first_answer (suc n) a fn = elim (Reply-cases (fn a)) [
    | inl (resp, ok) ↦ inl (0, resp, omega arith, tt, ap fn (sym (plus_zero a)) ∙ ok)
    | inr (e, bad) ↦ elim (first_answer n (suc a) fn) [
      | inl (k, resp, le, fails, ok) ↦
          inl (suc k, resp, omega arith, ((e, bad), fails), ap fn (plus_suc a k) ∙ ok)
      | inr (e', fails, last) ↦ inr (e', ((e, bad), fails), ap fn (plus_suc a n) ∙ last)
    ]
  ]

  slept :
      (n k : ℕ) (fn : ℕ → Reply F) (out : Retried F)
      → k ≤ n
      → with_retry (pos n) fn ≡ (backoff 0 k, out)
      → (sum (with_retry (pos n) fn).0 + 100 ≡ 100 * 2 ^ k)
        × ((25 < n) ⊎ All (λ ms. ms < 2 ^ 31) (with_retry (pos n) fn).0)
  slept n k fn out le run = rw run (total k, delays_fit n k le)

  -- Whatever the attempts do, `with_retry` with a number of retries that is not negative ends: it
  -- returns the first answer, or rethrows the last exception if all attempts raise. Before it has
  -- slept 100 milliseconds and twice as long before each further attempt: 100 * (2 ^ k - 1) in all
  -- for `k` retries made. Up to 25 retries no delay leaves the range of an `int`.
  pub with_retry_ends :
      (n : ℕ) (fn : ℕ → Reply F)
      → (k : ℕ) × (k ≤ n)
        × Fail 0 k fn
        × (((resp : ChatResponse F) × (fn k ≡ answered resp)
              × (with_retry (pos n) fn ≡ (backoff 0 k, returned resp)))
            ⊎ ((e : Text) × (k ≡ n)
                × (fn k ≡ raised e)
                × (with_retry (pos n) fn ≡ (backoff 0 k, rethrown e))))
        × (sum (with_retry (pos n) fn).0 + 100 ≡ 100 * 2 ^ k)
        × ((25 < n) ⊎ All (λ ms. ms < 2 ^ 31) (with_retry (pos n) fn).0)
  with_retry_ends n fn = elim (first_answer n 0 fn) [
    | inl (k, resp, le, fails, ok) ↦
        let first = ap fn (zero_plus k) ∙ ok in
        let run = with_retry_first n k fn resp le fails first in
        let (time, fit) = slept n k fn _ le run in (k, le, fails, inl (resp, first, run), time, fit)
    | inr (e, fails, last) ↦
        let final = ap fn (zero_plus n) ∙ last in
        let run = with_retry_last n fn e fails final in
        let (time, fit) = slept n n fn _ (omega arith) run in
        (n, omega arith, fails, inr (e, refl, final, run), time, fit)
  ]
