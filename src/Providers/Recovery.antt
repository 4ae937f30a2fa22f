-- ===== src/Providers/Recovery.antt =====
-- `chat` over attempts that fail.
use cost_optimized_llm_infer.Common.{
  ℕ, zero, suc, ◌+◌, ◌≤◌, ◌<◌, true, [], ◌∷◌, ◌++◌, some, Text, codes, pos, ◌≡◌, refl, ap, ◌∙◌,
  Double, arith, leb,
}
use cost_optimized_llm_infer.Types.{ChatRequest, ChatResponse}
use cost_optimized_llm_infer.Json.{Json, JsonDouble}
use cost_optimized_llm_infer.Providers.{
  Provider, Reply, answered, raised, returned, rethrown, with_retry,
}
use cost_optimized_llm_infer.Providers.Retry.{backoff, Fail, with_retry_first, with_retry_last}
use cost_optimized_llm_infer.Providers.Client.{
  HttpResult, no_answer, http_answer, HttpPost, posted, post_failed, read_http, http_post,
  parse_response, post_of, attempt_chat, chat,
}

-- No answer, or one with the status of an error.
abbrev pub IsRefused : HttpResult → Type 0
IsRefused (no_answer error) = Unit
IsRefused (http_answer status body) = 400 ≤ status

module _ {J : Type 0} ⦃j : Json J⦄ where
  read_http-IsRefused :
      (r : HttpResult) → IsRefused r → (e : Text) × (read_http {J = J} r ≡ post_failed e)
  unfolding read_http
  read_http-IsRefused (no_answer error) h = (_, refl)
  read_http-IsRefused (http_answer status body) h = rw (at_least status h, read_http) (_, refl)
    where
      at_least : (s : ℕ) → 400 ≤ s → leb 400 s ≡ true
      at_least s le = ground (arith, le)

  read_http-value :
      (status : ℕ) (body : Text) (v : J)
      → status < 400
      → j.parse body ≡ some v
      → read_http (http_answer status body) ≡ posted v
  unfolding read_http
  read_http-value status body v lt read = ground (arith, read)

  -- The request as the client gets it, with the type of its content.
  abbrev pub wired : HttpPost J → HttpPost J
  wired post = record post {
    headers = post.headers ++ ((codes "Content-Type", codes "application/json") ∷ []);
  }

module _ {F J : Type 0} ⦃d : Double F⦄ ⦃j : Json J⦄ ⦃n : JsonDouble F J⦄
    (send : ℕ → HttpPost J → HttpResult) (elapsed : ℕ → F) (p : Provider) (extra : J)
    (req : ChatRequest F) where
  attempt : ℕ → Reply F
  attempt i = attempt_chat (send i) (elapsed i) p extra req

  attempt-raised :
      (i : ℕ)
      → IsRefused (send i (wired (post_of p extra req)))
      → (e : Text) × (attempt i ≡ raised e)
  unfolding attempt attempt_chat http_post
  attempt-raised i h =
      let (e, failed) = read_http-IsRefused {J = J} _ h in rw (failed, attempt_chat) (e, refl)

  attempt-answered :
      (i status : ℕ) (body : Text) (v : J) (resp : ChatResponse F)
      → send i (wired (post_of p extra req)) ≡ http_answer status body
      → status < 400
      → j.parse body ≡ some v
      → parse_response p.kind v req (elapsed i) ≡ some resp
      → attempt i ≡ answered resp
  unfolding attempt attempt_chat http_post
  attempt-answered i status body v resp sent ok parsed read =
      let got : read_http (send i (wired (post_of p extra req))) ≡ posted v =
        ap read_http sent ∙ read_http-value status body v ok parsed in
      rw (got, read, attempt_chat) refl

  attempts-Fail :
      (a k : ℕ)
      → ((i : ℕ) → i < a + k → IsRefused (send i (wired (post_of p extra req))))
      → Fail a k attempt
  attempts-Fail a zero h = tt
  attempts-Fail a (suc k) h = (
    attempt-raised a (h a (omega arith)),
    attempts-Fail (suc a) k (λ i lt. h i (omega (arith, lt))),
  )

  chat-with_retry :
      (r : ℕ) → p.max_retries ≡ pos r → chat send elapsed p extra req ≡ with_retry (pos r) attempt
  unfolding chat attempt
  chat-with_retry r retries = ap (λ m. with_retry m attempt) retries

  -- If the first attempts are not answered, or with a status from 400 on, and the next one, which is
  -- within the retries, gets a JSON value that the provider's parser reads, then `chat` returns what
  -- it reads, behind delays that start at 100 milliseconds and double.
  pub chat_recovers :
      (r k status : ℕ) (body : Text) (v : J) (resp : ChatResponse F)
      → p.max_retries ≡ pos r
      → k ≤ r
      → ((i : ℕ) → i < k → IsRefused (send i (wired (post_of p extra req))))
      → send k (wired (post_of p extra req)) ≡ http_answer status body
      → status < 400
      → j.parse body ≡ some v
      → parse_response p.kind v req (elapsed k) ≡ some resp
      → chat send elapsed p extra req ≡ (backoff 0 k, returned resp)
  chat_recovers r k status body v resp retries le refused sent ok parsed read =
      chat-with_retry r retries
      ∙ with_retry_first r k attempt resp le
          (attempts-Fail 0 k (λ i lt. refused i (omega (arith, lt))))
          (attempt-answered k status body v resp sent ok parsed read)

  -- If no attempt is answered with a status below 400, `chat` fails, behind a delay before each
  -- retry.
  pub chat_fails :
      (r : ℕ)
      → p.max_retries ≡ pos r
      → ((i : ℕ) → i ≤ r → IsRefused (send i (wired (post_of p extra req))))
      → (e : Text) × (chat send elapsed p extra req ≡ (backoff 0 r, rethrown e))
  chat_fails r retries refused =
      let (e, last) = attempt-raised r (refused r (omega arith)) in
      (
        e,
        chat-with_retry r retries
            ∙ with_retry_last r attempt e
                (attempts-Fail 0 r (λ i lt. refused i (omega (arith, lt)))) last,
      )
