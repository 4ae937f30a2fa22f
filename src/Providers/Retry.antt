-- ===== src/Providers/Retry.antt =====
-- The attempts and the delays of `with_retry`.
use cost_optimized_llm_infer.Common.{
  ℕ, zero, suc, ◌+◌, ◌*◌, ◌^◌, ◌≤◌, ◌<◌, true, List, [], ◌∷◌, Option, none, some, Text, ltb, pos,
  ◌≡◌, refl, ap, ◌∙◌, arith,
}
use cost_optimized_llm_infer.Types.{ChatResponse}
use cost_optimized_llm_infer.Providers.{
  Reply, answered, raised, returned, rethrown, retry_from, with_retry,
}

-- The delays before the attempts from `attempt` on, so many of them.
abbrev pub backoff : (attempt rounds : ℕ) → List ℕ
backoff attempt zero = []
backoff attempt (suc rounds) = 100 * 2 ^ attempt ∷ backoff (suc attempt) rounds

more_left : (n : ℕ) → ltb 0 (suc n) ≡ true
more_left n = ground arith

module _ {F : Type 0} where
  -- The attempts from `attempt` on raise, so many of them.
  abbrev pub Fail : (attempt rounds : ℕ) → (ℕ → Reply F) → Type 0
  Fail attempt zero fn = Unit
  Fail attempt (suc rounds) fn =
      ((e : Text) × (fn attempt ≡ raised e)) × Fail (suc attempt) rounds fn

  reply_at : (fn : ℕ → Reply F) (a b : ℕ) (v : Reply F) → b ≡ a → fn a ≡ v → fn b ≡ v
  reply_at fn a b v e found = ap fn e ∙ found

  retry_from_first :
      (k left attempt : ℕ) (last_ex : Option Text) (fn : ℕ → Reply F) (resp : ChatResponse F)
      → k < left
      → Fail attempt k fn
      → fn (attempt + k) ≡ answered resp
      → retry_from left attempt last_ex fn ≡ (backoff attempt k, returned resp)
  unfolding retry_from
  retry_from_first zero (suc left) attempt last_ex fn resp lt fails found =
      rw (reply_at fn (attempt + 0) attempt (answered resp) (omega arith) found, retry_from) refl
  retry_from_first (suc k) (suc (suc left)) attempt last_ex fn resp lt ((e, fail), fails) found =
      rw (fail, retry_from)
        (rw
          (retry_from_first k (suc left) (suc attempt) (some e) fn resp (omega arith) fails
            (reply_at fn (attempt + suc k) (suc attempt + k) (answered resp) (omega arith) found))
          (rw (more_left left) refl))
  retry_from_first zero zero attempt last_ex fn resp lt fails found = absurd (omega arith)
  retry_from_first (suc k) zero attempt last_ex fn resp lt fails found = absurd (omega arith)
  retry_from_first (suc k) (suc zero) attempt last_ex fn resp lt fails found = absurd (omega arith)

  -- If the first `k` attempts raise and the next one, which is within the retries, answers, then
  -- that answer is returned, behind delays that start at 100 milliseconds and double.
  pub with_retry_first :
      (n k : ℕ) (fn : ℕ → Reply F) (resp : ChatResponse F)
      → k ≤ n
      → Fail 0 k fn
      → fn k ≡ answered resp
      → with_retry (pos n) fn ≡ (backoff 0 k, returned resp)
  unfolding with_retry
  with_retry_first n k fn resp le fails found =
      retry_from_first k (suc n) 0 none fn resp (omega arith) fails
        (reply_at fn k (0 + k) (answered resp) (omega arith) found)

  retry_from_last :
      (n attempt : ℕ) (last_ex : Option Text) (fn : ℕ → Reply F) (e : Text)
      → Fail attempt n fn
      → fn (attempt + n) ≡ raised e
      → retry_from (suc n) attempt last_ex fn ≡ (backoff attempt n, rethrown e)
  unfolding retry_from
  retry_from_last zero attempt last_ex fn e fails found =
      rw (reply_at fn (attempt + 0) attempt (raised e) (omega arith) found, retry_from) refl
  retry_from_last (suc n) attempt last_ex fn e ((x, fail), fails) found =
      rw (fail, retry_from)
        (rw
          (retry_from_last n (suc attempt) (some x) fn e fails
            (reply_at fn (attempt + suc n) (suc attempt + n) (raised e) (omega arith) found))
          (rw (more_left n) refl))

  -- If every attempt raises, the exception of the last one is rethrown, behind one delay less than
  -- there are attempts.
  pub with_retry_last :
      (n : ℕ) (fn : ℕ → Reply F) (e : Text)
      → Fail 0 n fn
      → fn n ≡ raised e
      → with_retry (pos n) fn ≡ (backoff 0 n, rethrown e)
  unfolding with_retry
  with_retry_last n fn e fails found =
      retry_from_last n 0 none fn e fails (reply_at fn n (0 + n) (raised e) (omega arith) found)
