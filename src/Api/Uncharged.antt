-- ===== src/Api/Uncharged.antt =====
-- How /chat and /v1/chat/completions share the cache.
use cost_optimized_llm_infer.Common.{
  ℕ, ◌<◌, true, false, List, [], ◌∷◌, ◌≢◌, ◌⊎◌, inl, inr, is_empty, Bool-cases, if◌then◌else◌, some,
  Text, length, pos, ◌≤ℤ◌, ◌+ℤ◌, ◌*ℤ◌, ◌≡◌, ◌∙◌, refl, Double,
}
use cost_optimized_llm_infer.Types.{Message, ChatRequest, ChatResponse, second}
use cost_optimized_llm_infer.Json.{Json}
use cost_optimized_llm_infer.TokenCounter.{count_messages}
use cost_optimized_llm_infer.RateLimiter.{RateLimiter, Result, check_request}
use cost_optimized_llm_infer.Metrics.{inc_requests, inc_cache_hits}
use cost_optimized_llm_infer.Cache.{Cache, make_key, to_size_t, get, put}
use cost_optimized_llm_infer.Cache.Invariant.{IsValid}
use cost_optimized_llm_infer.Cache.Store.{get-put}
use cost_optimized_llm_infer.Config.{GatewayConfig}
use cost_optimized_llm_infer.Providers.{Registry, answered}
use cost_optimized_llm_infer.Chat.{Gateway, World, Calls, Outcome, look_up, admit_request, handle}
use cost_optimized_llm_infer.Chat.Outcome.{hit}
use cost_optimized_llm_infer.Api.{Response}
use cost_optimized_llm_infer.Api.Legacy.{legacy_call}

module _ {F : Type 0} ⦃d : Double F⦄ where
  -- The limiter behind the admission of a request, which the code asks only about a request with a
  -- key.
  abbrev pub checked : World → GatewayConfig F → ChatRequest F → RateLimiter → RateLimiter × Result
  checked w cfg req l =
      check_request cfg.rate_limit req.api_key (pos (count_messages req.messages)) w.created
        w.checked w.refused l

  handle-admit_request :
      (fuel : ℕ) (w : World) (cfg : GatewayConfig F) (reg : Registry) (call : Calls F)
      (req : ChatRequest F) (g : Gateway F)
      → req.messages ≢ []
      → handle fuel w cfg reg call req g
        ≡ admit_request fuel w cfg reg call req (record g { metrics = inc_requests g.metrics })
  unfolding handle
  handle-admit_request fuel w cfg reg call req g asked = by_messages req.messages asked
    where
      g' : Gateway F
      g' = record g { metrics = inc_requests g.metrics }

      by_messages :
          (ms : List Message)
          → ms ≢ []
          → elim ms [
            | [] ↦ some (g', Outcome.no_messages)
            | m ∷ rest ↦ admit_request fuel w cfg reg call req g'
          ]
            ≡ admit_request fuel w cfg reg call req g'
      by_messages [] nonempty = absurd (nonempty refl)
      by_messages (m ∷ ms) nonempty = refl

  -- The cache answers a request that is let through.
  admit_request-get :
      (fuel : ℕ) (w : World) (cfg : GatewayConfig F) (reg : Registry) (call : Calls F)
      (req : ChatRequest F) (g : Gateway F) (c : Cache F) (resp : ChatResponse F)
      → ((is_empty req.api_key ≡ true) ⊎ ((checked w cfg req g.limiter).1.allowed ≡ true))
      → get w.hash cfg.cache req w.looked_up w.accessed g.cache ≡ some (c, some resp)
      → admit_request fuel w cfg reg call req g
        ≡ some (
          record g {
            cache = c;
            limiter = if is_empty req.api_key then g.limiter else (checked w cfg req g.limiter).0;
            metrics = inc_cache_hits g.metrics;
          },
          hit resp,
        )
  unfolding admit_request look_up
  admit_request-get fuel w cfg reg call req g c resp through read =
      elim (Bool-cases (is_empty req.api_key)) [
        | inl anonymous ↦ rw (anonymous, admit_request) (rw (read, look_up) refl)
        | inr keyed ↦
            let allowed : (checked w cfg req g.limiter).1.allowed ≡ true = elim through [
              | inl e ↦ absurd cc
              | inr e ↦ e
            ] in
            rw (keyed, allowed, admit_request) (rw (read, look_up) refl)
      ]

module _ {F : Type 0} ⦃d : Double F⦄ (J : Type 0) ⦃j : Json J⦄ where
  legacy_call-put :
      (fuel : ℕ) (w : World) (cfg : GatewayConfig F) (call : Calls F) (req : ChatRequest F)
      (provider model : Text) (resp : ChatResponse F) (g : Gateway F) (c : Cache F)
      → call 0 provider (record req { model = model }) ≡ answered resp
      → put w.hash fuel cfg.cache req resp w.tidied w.stored g.cache ≡ some c
      → (page : Response J) × (legacy_call fuel w cfg call req provider model g
          ≡ some (record g { cache = c }, page))
  unfolding legacy_call
  legacy_call-put fuel w cfg call req provider model resp g c replied stored_as =
      rw (replied, legacy_call) (rw stored_as (_, refl))

  -- What a provider answers to /chat answers the next completion with the same key of the cache that
  -- has messages and that the rate limiter lets through, until its time to live has passed, as the
  -- provider gave it and without a charge: the costs are those from before both, and the limiter is
  -- changed by the admission of the completion alone, and not at all without an authorization header.
  -- The cache is enabled, sound and may hold an entry, the request to /chat is no stream, and the fuel
  -- is beyond the number of entries.
  pub legacy_call-handle :
      (fuel fuel' : ℕ) (w w' : World) (cfg : GatewayConfig F) (reg : Registry)
      (call call' : Calls F) (req again : ChatRequest F) (provider model : Text)
      (resp : ChatResponse F) (g : Gateway F)
      → call 0 provider (record req { model = model }) ≡ answered resp
      → cfg.cache.enabled ≡ true
      → req.stream ≡ false
      → 0 < to_size_t cfg.cache.max_entries
      → length g.cache.entries < fuel
      → IsValid g.cache
      → make_key w.hash cfg.cache again ≡ make_key w.hash cfg.cache req
      → pos w'.looked_up ≤ℤ pos w.stored +ℤ cfg.cache.ttl_seconds *ℤ pos second
      → again.messages ≢ []
      → ((is_empty again.api_key ≡ true) ⊎ ((checked w' cfg again g.limiter).1.allowed ≡ true))
      → (g' g'' : Gateway F) × (page : Response J) × (legacy_call fuel w cfg call req provider model
            g
          ≡ some (g', page))
        × (handle fuel' (record w' { hash = w.hash }) cfg reg call' again g'
            ≡ some (
              g'',
              hit (record resp {
                from_cache = true;
                request_id = again.request_id;
                latency_ms = d.of_int (pos 0);
              }),
            ))
        × (g''.costs ≡ g.costs)
        × (g''.limiter
            ≡ (if is_empty again.api_key then g.limiter else (checked w' cfg again g.limiter).0))
  legacy_call-handle fuel fuel' w w' cfg reg call call' req again provider model resp g replied on
        plain room enough v same fresh asked through =
      let (c, c', stored_as, read) =
        get-put w.hash fuel cfg.cache req again resp w.tidied w.stored w'.looked_up w'.accessed
          g.cache on plain room enough v same fresh in
      let (page, called) =
        legacy_call-put fuel w cfg call req provider model resp g c replied stored_as in
      let w'' = record w' { hash = w.hash } in
      (
        record g { cache = c },
        _,
        page,
        called,
        handle-admit_request fuel' w'' cfg reg call' again (record g { cache = c }) asked
            ∙ admit_request-get fuel' w'' cfg reg call' again
                (record g { cache = c; metrics = inc_requests g.metrics }) c' _ through read,
        refl,
        refl,
      )
