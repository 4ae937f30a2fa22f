-- ===== src/Main/Threads/Handlers.antt =====
-- The handlers as sequences of operations.
use cost_optimized_llm_infer.Common.{
  ℕ, suc, false, ◌≡◌, refl, sym, ◌∙◌, List, [], ◌∷◌, Option, none, some, Text, is_empty, pos,
  Double, Bool-cases, Option-cases, List-cases, inl, inr,
}
use mathlib.Core.Option.{some-injective}
use mathlib.Core.Path.{subst}
use cost_optimized_llm_infer.Types.{ChatRequest, ChatResponse, RouteDecision}
use cost_optimized_llm_infer.Metrics.{inc_requests, inc_cache_misses}
use cost_optimized_llm_infer.TokenCounter.{count_messages}
use cost_optimized_llm_infer.Cache.{Cache, inc64, get, put}
use cost_optimized_llm_infer.RateLimiter.{check_request}
use cost_optimized_llm_infer.Config.{GatewayConfig}
use cost_optimized_llm_infer.Router.{report_failure}
use cost_optimized_llm_infer.Router.Dispatch.{route}
use cost_optimized_llm_infer.Providers.{Registry, find_provider, supported_models}
use cost_optimized_llm_infer.Chat.{
  Gateway, World, Calls, try_fallbacks, call_providers, charged, book, finish, serve, look_up,
  admit_request, handle,
}
use cost_optimized_llm_infer.Chat.Answers.{Reply-cases}
use cost_optimized_llm_infer.Main.Runs.{enough_fuel}
use cost_optimized_llm_infer.Main.Threads.{
  booked, counted, counted_error, counted_hit, counted_miss, observed, observed_tokens, checked,
  recorded, read, passed, stored, routed, reported_success, reported_failure, Operated, next,
}

module _ {F : Type 0} ⦃d : Double F⦄ (w : World) (cfg : GatewayConfig F) (start : Gateway F) where
  -- A read of the cache, under the mutex or, if it is disabled, without it.
  pub get-Operated :
      (req : ChatRequest F) (g : Gateway F) (c : Cache F) (found : Option (ChatResponse F))
      → get w.hash cfg.cache req w.looked_up w.accessed g.cache ≡ some (c, found)
      → Operated cfg start g
      → Operated cfg start (record g { cache = c })
  unfolding get
  get-Operated req g c found ran o = elim (Bool-cases cfg.cache.enabled) [
    | inl on ↦ next o (read w.hash req w.looked_up w.accessed on ran)
    | inr off ↦
        let counted_one : some (record (g.cache) { misses = inc64 g.cache.misses }, none)
            ≡ some (c, found) =
          sym (if_neg_get off) ∙ ran in
        subst
          (λ (x : Cache F × Option (ChatResponse F)). Operated cfg start (record g { cache = x.0 }))
          (some-injective _ (c, found) counted_one) (next o (passed g.cache.misses off))
  ]
    where
      if_neg_get :
          cfg.cache.enabled ≡ false
          → get w.hash cfg.cache req w.looked_up w.accessed g.cache
            ≡ some (record (g.cache) { misses = inc64 g.cache.misses }, none)
      if_neg_get off = rw (off, get) refl

  -- A step of a handler that ends is a sequence of operations behind those from `start`.
  abbrev pub Runs : {A : Type 0} → Option (Gateway F × A) → Type 0
  Runs none = Unit
  Runs (some out) = Operated cfg start out.0

  try_fallbacks-Operated :
      (reg : Registry) (call : Calls F) (i : ℕ) (chain : List Text) (req : ChatRequest F)
      (g : Gateway F)
      → Operated cfg start g
      → Operated cfg start (record g { router = (try_fallbacks w reg call i chain req g.router).0 })
  unfolding try_fallbacks
  try_fallbacks-Operated reg call i [] req g o = o
  try_fallbacks-Operated reg call i (name ∷ chain) req g o =
      elim (Option-cases (find_provider name reg)) [
        | inl missing ↦
            rw (missing, try_fallbacks) (try_fallbacks-Operated reg call i chain req g o)
        | inr (p, found) ↦ elim (List-cases (supported_models p.kind)) [
          | inl nothing ↦
              rw (found, nothing, try_fallbacks) (try_fallbacks-Operated reg call i chain req g o)
          | inr (m, ms, some_model) ↦ elim (Reply-cases (call i name (record req { model = m }))) [
            | inr (e, fails) ↦
                rw (found, some_model, fails, try_fallbacks)
                  (try_fallbacks-Operated reg call (suc i) chain (record req { model = m })
                    (record g { router = report_failure (w.reported i) name g.router })
                    (next o (reported_failure (w.reported i) name)))
            | inl (resp, replies) ↦
                rw (found, some_model, replies, try_fallbacks)
                  (next o (reported_success (w.reported i) name resp.latency_ms))
          ]
        ]
      ]

  call_providers-Operated :
      (reg : Registry) (call : Calls F) (req : ChatRequest F) (dec : RouteDecision F)
      (g : Gateway F)
      → Operated cfg start g
      → Operated cfg start (record g { router = (call_providers w reg call req dec g.router).0 })
  unfolding call_providers
  call_providers-Operated reg call req dec g o =
      elim (Reply-cases (call 0 dec.provider (record req { model = dec.model }))) [
        | inr (e, fails) ↦
            rw (fails, call_providers)
              (try_fallbacks-Operated reg call 1 dec.fallback_chain
                (record req { model = dec.model })
                (record g { router = report_failure (w.reported 0) dec.provider g.router })
                (next o (reported_failure (w.reported 0) dec.provider)))
        | inl (resp, replies) ↦
            rw (replies, call_providers)
              (next o (reported_success (w.reported 0) dec.provider resp.latency_ms))
      ]

  book-Operated :
      (req : ChatRequest F) (resp : ChatResponse F) (g : Gateway F)
      → Operated cfg start g
      → Operated cfg start (book w cfg req resp g)
  unfolding book
  book-Operated req resp g o =
      let seen =
        next (next (next o (booked w req resp)) (observed resp.latency_ms))
          (observed_tokens resp.total_tokens) in
      elim (Bool-cases (is_empty req.api_key)) [
        | inl anonymous ↦ rw (anonymous, book) seen
        | inr keyed ↦
            rw (keyed, book) (next seen (recorded req.api_key resp.total_tokens w.created))
      ]

  finish-Runs :
      (req : ChatRequest F) (dec : RouteDecision F) (answer : ChatResponse F) (g : Gateway F)
      → Operated cfg start g
      → Runs (finish (enough_fuel cfg) w cfg req dec answer g)
  unfolding finish
  finish-Runs req dec answer g o =
      let resp = charged g.costs req answer in
      let g' = book w cfg req resp g in
      elim (Option-cases
        (put w.hash (enough_fuel cfg) cfg.cache req resp w.tidied w.stored g'.cache)) [
          | inl endless ↦ rw (endless, finish) tt
          | inr (c, kept) ↦
              rw (kept, finish)
                (next (book-Operated req resp g o) (stored w.hash req resp w.tidied w.stored kept))
        ]

  serve-Runs :
      (reg : Registry) (call : Calls F) (req : ChatRequest F) (dec : RouteDecision F)
      (g : Gateway F)
      → Operated cfg start g
      → Runs (serve (enough_fuel cfg) w cfg reg call req dec g)
  unfolding serve
  serve-Runs reg call req dec g o = elim (Bool-cases (is_empty dec.provider)) [
    | inl nobody ↦ rw (nobody, serve) (next o counted_error)
    | inr named ↦ elim (Option-cases (find_provider dec.provider reg)) [
      | inl missing ↦ rw (named, missing, serve) (next o counted_error)
      | inr (p, found) ↦
          let called = call_providers-Operated reg call req dec g o in
          elim (Option-cases (call_providers w reg call req dec g.router).1) [
            | inl nobody ↦ rw (named, found, nobody, serve) (next called counted_error)
            | inr (answer, replied) ↦
                rw (named, found, replied, serve)
                  (finish-Runs req dec answer
                    (record g { router = (call_providers w reg call req dec g.router).0 }) called)
          ]
    ]
  ]

  look_up-Runs :
      (reg : Registry) (call : Calls F) (req : ChatRequest F) (g : Gateway F)
      → Operated cfg start g
      → Runs (look_up (enough_fuel cfg) w cfg reg call req g)
  unfolding look_up
  look_up-Runs reg call req g o =
      elim (Option-cases (get w.hash cfg.cache req w.looked_up w.accessed g.cache)) [
        | inl dangling ↦ rw (dangling, look_up) tt
        | inr ((c, cached), found) ↦
            let after = get-Operated req g c cached found o in
            elim (Option-cases cached) [
              | inr (resp, e) ↦ rw (found, e, look_up) (next after counted_hit)
              | inl e ↦ elim (Option-cases (route req cfg g.router)) [
                | inl outside ↦ rw (found, e, outside, look_up) tt
                | inr ((dec, r), decided) ↦
                    rw (found, e, decided, look_up)
                      (serve-Runs reg call req dec
                        (record g { cache = c; metrics = inc_cache_misses g.metrics; router = r })
                        (next (next after counted_miss) (routed req decided)))
              ]
            ]
      ]

  admit_request-Runs :
      (reg : Registry) (call : Calls F) (req : ChatRequest F) (g : Gateway F)
      → Operated cfg start g
      → Runs (admit_request (enough_fuel cfg) w cfg reg call req g)
  unfolding admit_request
  admit_request-Runs reg call req g o =
      let est = pos (count_messages req.messages) in
      let (l, r) =
        check_request cfg.rate_limit req.api_key est w.created w.checked w.refused g.limiter in
      let limits = next o (checked req.api_key est w.created w.checked w.refused) in
      elim (Bool-cases (is_empty req.api_key)) [
        | inl anonymous ↦ rw (anonymous, admit_request) (look_up-Runs reg call req g o)
        | inr keyed ↦ elim (Bool-cases r.allowed) [
          | inl allowed ↦
              rw (keyed, allowed, admit_request)
                (look_up-Runs reg call req (record g { limiter = l }) limits)
          | inr refused ↦ rw (keyed, refused, admit_request) limits
        ]
      ]

  pub handle-Runs :
      (reg : Registry) (call : Calls F) (req : ChatRequest F) (g : Gateway F)
      → Operated cfg start g
      → Runs (handle (enough_fuel cfg) w cfg reg call req g)
  unfolding handle
  handle-Runs reg call req g o = elim (List-cases req.messages) [
    | inl nothing ↦ rw (nothing, handle) (next o counted)
    | inr (m, ms, some_message) ↦
        rw (some_message, handle)
          (admit_request-Runs reg call req (record g { metrics = inc_requests g.metrics })
            (next o counted))
  ]
