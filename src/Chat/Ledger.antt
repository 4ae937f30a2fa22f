-- ===== src/Chat/Ledger.antt =====
-- What a request leaves in the metrics and in the history of costs, by the response it gets.
use mathlib.Core.Path.{subst}
use cost_optimized_llm_infer.Common.{
  length, ◌<◌, ℕ, List, [], ◌∷◌, Option, none, some, is_empty, ◌≡◌, refl, pos, Double, Bool-cases,
  Option-cases, inl, inr,
}
use cost_optimized_llm_infer.Types.{Message, ChatRequest, ChatResponse, RouteDecision}
use cost_optimized_llm_infer.TokenCounter.{count_messages}
use cost_optimized_llm_infer.Cache.{get, put, to_size_t}
use cost_optimized_llm_infer.Chat.Totality.{IsSound, handle_total}
use cost_optimized_llm_infer.RateLimiter.{check_request}
use cost_optimized_llm_infer.CostTracker.{CostTracker, record_request, estimate_cost}
use cost_optimized_llm_infer.Metrics.{
  Metrics, inc_requests, inc_errors, inc_cache_hits, inc_cache_misses, observe_latency,
  observe_tokens,
}
use cost_optimized_llm_infer.Config.{GatewayConfig}
use cost_optimized_llm_infer.Router.Dispatch.{route}
use cost_optimized_llm_infer.Providers.{Registry, find_provider}
use cost_optimized_llm_infer.Chat.{
  Gateway, World, Calls, Outcome, no_messages, limited, hit, no_providers, not_available,
  all_failed, miss, call_providers, charged, metrics_of, finish, book, serve, look_up,
  admit_request, handle,
}

module _ {F : Type 0} ⦃d : Double F⦄ where
  -- The counters behind a response, from those that counted the request: a refusal adds nothing, a
  -- hit a hit, and every other response a miss; a failure adds an error, and an answer its latency
  -- and its tokens.
  unfoldable pub tallied : Outcome F → Metrics F → Metrics F
  tallied no_messages m = m
  tallied (limited r) m = m
  tallied (hit resp) m = inc_cache_hits m
  tallied (no_providers model) m = inc_errors (inc_cache_misses m)
  tallied (not_available name) m = inc_errors (inc_cache_misses m)
  tallied (all_failed model) m = inc_errors (inc_cache_misses m)
  tallied (miss resp st) m =
      observe_tokens resp.total_tokens (observe_latency resp.latency_ms (inc_cache_misses m))

  -- The history behind a response: an answer of a provider is booked, and nothing else.
  unfoldable pub billed : World → ChatRequest F → Outcome F → CostTracker F → CostTracker F
  billed w req no_messages t = t
  billed w req (limited r) t = t
  billed w req (hit resp) t = t
  billed w req (no_providers model) t = t
  billed w req (not_available name) t = t
  billed w req (all_failed model) t = t
  billed w req (miss resp st) t = record_request (metrics_of w req resp) t

  -- An answer of a provider costs what its model and its tokens are estimated at.
  abbrev pub IsPriced : CostTracker F → Outcome F → Type 0
  IsPriced t no_messages = Unit
  IsPriced t (limited r) = Unit
  IsPriced t (hit resp) = Unit
  IsPriced t (no_providers model) = Unit
  IsPriced t (not_available name) = Unit
  IsPriced t (all_failed model) = Unit
  IsPriced t (miss resp st) =
      resp.cost_usd
      ≡ estimate_cost resp.provider resp.model resp.prompt_tokens resp.completion_tokens t

  -- The books of a gateway and a response, kept from the metrics and the costs given.
  abbrev pub IsBooked :
      World → ChatRequest F → Metrics F → CostTracker F → Option (Gateway F × Outcome F) → Type 0
  IsBooked w req m t none = Unit
  IsBooked w req m t (some (g, out)) =
      (g.metrics ≡ tallied out m) × (g.costs ≡ billed w req out t) × IsPriced t out

module _ {F : Type 0} ⦃d : Double F⦄ (fuel : ℕ) (w : World) (cfg : GatewayConfig F) (reg : Registry)
    (call : Calls F) (req : ChatRequest F) where
  finish-IsBooked :
      (dec : RouteDecision F) (answer : ChatResponse F) (g : Gateway F) (m : Metrics F)
      → g.metrics ≡ inc_cache_misses m
      → IsBooked w req m g.costs (finish fuel w cfg req dec answer g)
  unfolding finish book charged tallied billed
  finish-IsBooked dec answer g m same =
      let resp = charged g.costs req answer in
      elim (Option-cases (put w.hash fuel cfg.cache req resp w.tidied w.stored g.cache)) [
        | inl e ↦ rw (e, finish) tt
        | inr (c, e) ↦ rw (e, finish) (rw same refl, refl, refl)
      ]

  serve-IsBooked :
      (dec : RouteDecision F) (g : Gateway F) (m : Metrics F)
      → g.metrics ≡ inc_cache_misses m
      → IsBooked w req m g.costs (serve fuel w cfg reg call req dec g)
  unfolding serve tallied billed
  serve-IsBooked dec g m same = elim (Bool-cases (is_empty dec.provider)) [
    | inl nobody ↦ rw (nobody, serve) (rw same refl, refl, tt)
    | inr named ↦ elim (Option-cases (find_provider dec.provider reg)) [
      | inl missing ↦ rw (named, missing, serve) (rw same refl, refl, tt)
      | inr (p, found) ↦ elim (Option-cases (call_providers w reg call req dec g.router).1) [
        | inl failed ↦ rw (named, found, failed, serve) (rw same refl, refl, tt)
        | inr (answer, replied) ↦
            rw (named, found, replied, serve)
              (finish-IsBooked dec answer
                (record g { router = (call_providers w reg call req dec g.router).0 }) m same)
      ]
    ]
  ]

  look_up-IsBooked :
      (g : Gateway F) → IsBooked w req g.metrics g.costs (look_up fuel w cfg reg call req g)
  unfolding look_up tallied billed
  look_up-IsBooked g =
      elim (Option-cases (get w.hash cfg.cache req w.looked_up w.accessed g.cache)) [
        | inl lost ↦ rw (lost, look_up) tt
        | inr ((c, cached), read) ↦ elim (Option-cases cached) [
          | inr (resp, e) ↦ rw (read, e, look_up) (refl, refl, tt)
          | inl e ↦ elim (Option-cases (route req cfg g.router)) [
            | inl nowhere ↦ rw (read, e, nowhere, look_up) tt
            | inr ((dec, r), routed) ↦
                rw (read, e, routed, look_up)
                  (serve-IsBooked dec
                    (record g { cache = c; metrics = inc_cache_misses g.metrics; router = r })
                    g.metrics refl)
          ]
        ]
      ]

  admit_request-IsBooked :
      (g : Gateway F) → IsBooked w req g.metrics g.costs (admit_request fuel w cfg reg call req g)
  unfolding admit_request tallied billed
  admit_request-IsBooked g =
      let (l, r) =
        check_request cfg.rate_limit req.api_key (pos (count_messages req.messages)) w.created
          w.checked w.refused g.limiter in
      elim (Bool-cases (is_empty req.api_key)) [
        | inl anonymous ↦ rw (anonymous, admit_request) (look_up-IsBooked g)
        | inr keyed ↦ elim (Bool-cases r.allowed) [
          | inl allowed ↦
              rw (keyed, allowed, admit_request) (look_up-IsBooked (record g { limiter = l }))
          | inr refused ↦ rw (keyed, refused, admit_request) (refl, refl, tt)
        ]
      ]

  handle-IsBooked :
      (g : Gateway F)
      → IsBooked w req (inc_requests g.metrics) g.costs (handle fuel w cfg reg call req g)
  unfolding handle tallied billed
  handle-IsBooked g = by_messages req.messages
    where
      g' : Gateway F
      g' = record g { metrics = inc_requests g.metrics }

      by_messages :
          (ms : List Message)
          → IsBooked w req g'.metrics g.costs (elim ms [
            | [] ↦ some (g', Outcome.no_messages)
            | m ∷ rest ↦ admit_request fuel w cfg reg call req g'
          ])
      by_messages [] = (refl, refl, tt)
      by_messages (m ∷ ms) = admit_request-IsBooked g'

module _ {F : Type 0} ⦃d : Double F⦄ (fuel : ℕ) (w : World) (cfg : GatewayConfig F) where
  -- In a sound gateway, with room for an entry and fuel beyond the number of entries, the handler
  -- ends, and the response alone decides what the request adds to the metrics and to the history of
  -- costs: every request is counted; a refusal adds no more; a hit adds a hit; every other response a
  -- miss; a failure of the providers an error; and only an answer of a provider its latency, its
  -- tokens and a record of its cost, which is the estimate for its model and its tokens. The gateway
  -- behind it is sound.
  pub handle-tallied :
      (reg : Registry) (call : Calls F) (req : ChatRequest F) (g : Gateway F)
      → 0 < to_size_t cfg.cache.max_entries
      → IsSound cfg.cache g
      → length g.cache.entries < fuel
      → (g' : Gateway F) × (out : Outcome F) × (handle fuel w cfg reg call req g ≡ some (g', out))
        × (g'.metrics ≡ tallied out (inc_requests g.metrics))
        × (g'.costs ≡ billed w req out g.costs)
        × IsPriced g.costs out
        × IsSound cfg.cache g'
  handle-tallied reg call req g room s enough =
      let (out, ended, sound) = handle_total fuel w cfg room reg call req g s enough in
      let (counted, booked, priced) =
        subst (IsBooked w req (inc_requests g.metrics) g.costs) ended
          (handle-IsBooked fuel w cfg reg call req g) in
      (out.0, out.1, ended, counted, booked, priced, sound)
