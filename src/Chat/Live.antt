-- ===== src/Chat/Live.antt =====
-- The calls of src/api/chat_completions.cpp as the HTTP requests of the registered providers.
use cost_optimized_llm_infer.Common.{
  false, is_empty, length, ℕ, ◌≤◌, ◌<◌, List, ◌∷◌, none, some, Text, ◌≡◌, refl, ap, ◌∙◌, pos,
  Double,
}
use cost_optimized_llm_infer.Types.{ChatRequest, ChatResponse, RouteDecision}
use cost_optimized_llm_infer.Json.{Json, JsonDouble}
use cost_optimized_llm_infer.Router.{Router, report_success, report_failure}
use cost_optimized_llm_infer.Providers.{
  Registry, Provider, Reply, answered, raised, Retried, returned, rethrown, undefined,
  find_provider, supported_models,
}
use cost_optimized_llm_infer.Providers.Client.{
  HttpResult, http_answer, HttpPost, parse_response, post_of, chat,
}
use cost_optimized_llm_infer.Providers.Recovery.{IsRefused, wired, chat_recovers, chat_fails}
use cost_optimized_llm_infer.Cache.{to_size_t}
use cost_optimized_llm_infer.Config.{GatewayConfig}
use cost_optimized_llm_infer.Chat.{
  Gateway, World, Calls, miss, call_providers, try_fallbacks, charged, book, finish, serve,
}
use cost_optimized_llm_infer.Chat.Totality.{IsSound, put_total}
use cost_optimized_llm_infer.Chat.Served.{served_by, serve_found}

module _ {F : Type 0} where
  -- What the caller of `chat` sees. Without an attempt the code rethrows no exception at all, which
  -- C++ leaves undefined; `lost` stands for what happens then.
  unfoldable pub reply_of : (lost : Reply F) → List ℕ × Retried F → Reply F
  reply_of lost (delays, returned resp) = answered resp
  reply_of lost (delays, rethrown e) = raised e
  reply_of lost (delays, undefined) = lost

module _ {F J : Type 0} ⦃d : Double F⦄ ⦃j : Json J⦄ ⦃n : JsonDouble F J⦄
    (send : ℕ → ℕ → HttpPost J → HttpResult) (elapsed : ℕ → ℕ → F) (extra : J) where
  -- Call `i` goes to the provider of that name; attempt `a` of it is answered by `send i a`. The
  -- handler calls only providers that are registered, so `lost` stands for other names too.
  unfoldable pub calls_of : (lost : Reply F) → Registry → Calls F
  calls_of lost reg i name req = elim (find_provider name reg) [
    | none ↦ lost
    | some p ↦ reply_of lost (chat (send i) (elapsed i) p extra req)
  ]

  -- The registered provider of that name refuses every attempt of call `i` with the request.
  pub record RefusesAll (reg : Registry) (i : ℕ) (name : Text) (req : ChatRequest F) : Type 0 where
    pub provider : Provider
    pub found : find_provider name reg ≡ some provider
    pub retries : ℕ
    pub allowed : provider.max_retries ≡ pos retries
    pub refused : (a : ℕ) → a ≤ retries → IsRefused (send i a (wired (post_of provider extra req)))

  calls_of-RefusesAll :
      (lost : Reply F) (reg : Registry) (i : ℕ) (name : Text) (req : ChatRequest F)
      → RefusesAll reg i name req
      → (e : Text) × (calls_of lost reg i name req ≡ raised e)
  unfolding calls_of reply_of
  calls_of-RefusesAll lost reg i name req h =
      let (e, failed) =
        chat_fails (send i) (elapsed i) h.provider extra req h.retries h.allowed h.refused in
      (e, rw (h.found, failed, calls_of) refl)

  -- The registered provider of that name answers call `i` with the request: after refusals, fewer
  -- than it may retry, an attempt gets a body that its parser reads as the response.
  pub record Serves (reg : Registry) (i : ℕ) (name : Text) (req : ChatRequest F)
      (resp : ChatResponse F) : Type 0 where
    pub provider : Provider
    pub found : find_provider name reg ≡ some provider
    pub retries : ℕ
    pub allowed : provider.max_retries ≡ pos retries
    pub tried : ℕ
    pub within : tried ≤ retries
    pub refused : (a : ℕ) → a < tried → IsRefused (send i a (wired (post_of provider extra req)))
    pub status : ℕ
    pub ok : status < 400
    pub body : Text
    pub sent : send i tried (wired (post_of provider extra req)) ≡ http_answer status body
    pub value : J
    pub parsed : j.parse body ≡ some value
    pub read : parse_response provider.kind value req (elapsed i tried) ≡ some resp

  calls_of-Serves :
      (lost : Reply F) (reg : Registry) (i : ℕ) (name : Text) (req : ChatRequest F)
      (resp : ChatResponse F)
      → Serves reg i name req resp
      → calls_of lost reg i name req ≡ answered resp
  unfolding calls_of reply_of
  calls_of-Serves lost reg i name req resp h =
      let answer =
        chat_recovers (send i) (elapsed i) h.provider extra req h.retries h.tried h.status h.body
          h.value resp h.allowed h.within h.refused h.sent h.ok h.parsed h.read in
      rw (h.found, answer, calls_of) refl

  call_providers_fallback :
      (w : World) (lost : Reply F) (reg : Registry) (req : ChatRequest F) (dec : RouteDecision F)
      (r : Router F) (name m : Text) (chain ms : List Text) (resp : ChatResponse F)
      → RefusesAll reg 0 dec.provider (record req { model = dec.model })
      → dec.fallback_chain ≡ name ∷ chain
      → (s : Serves reg 1 name (record req { model = m }) resp)
      → supported_models s.provider.kind ≡ m ∷ ms
      → call_providers w reg (calls_of lost reg) req dec r ≡ (
        report_success
            (w.reported 1)
            name
            resp.latency_ms
            (report_failure (w.reported 0) dec.provider r),
        some (record resp { provider = name }),
      )
  unfolding call_providers try_fallbacks
  call_providers_fallback w lost reg req dec r name m chain ms resp down next s models =
      let (e, bad) =
        calls_of-RefusesAll lost reg 0 dec.provider (record req { model = dec.model }) down in
      let good = calls_of-Serves lost reg 1 name (record req { model = m }) resp s in
      rw (bad, next, s.found, models, good, call_providers, try_fallbacks) refl

  -- The chosen provider refuses every attempt, over its retries, and the first fallback answers one
  -- of its own: in a sound gateway, with room for an entry and fuel beyond the number of entries, the
  -- request is answered with what the fallback's parser reads, under the fallback's name, charged by
  -- its price and with the request's id, and the router hears of a failure of the one and of a
  -- success of the other. What `lost` stands for plays no part.
  pub serve_fallback :
      (fuel : ℕ) (w : World) (cfg : GatewayConfig F) (lost : Reply F) (reg : Registry)
      (req : ChatRequest F) (dec : RouteDecision F) (g : Gateway F) (name m : Text)
      (chain ms : List Text) (resp : ChatResponse F)
      → 0 < to_size_t cfg.cache.max_entries
      → IsSound cfg.cache g
      → length g.cache.entries < fuel
      → is_empty dec.provider ≡ false
      → RefusesAll reg 0 dec.provider (record req { model = dec.model })
      → dec.fallback_chain ≡ name ∷ chain
      → (s : Serves reg 1 name (record req { model = m }) resp)
      → supported_models s.provider.kind ≡ m ∷ ms
      → (g' : Gateway F) × (serve fuel w cfg reg (calls_of lost reg) req dec g
          ≡ some
              (g', miss (charged g.costs req (record resp { provider = name })) dec.strategy_used))
        × (g'.router
            ≡ report_success
                (w.reported 1)
                name
                resp.latency_ms
                (report_failure (w.reported 0) dec.provider g.router))
  unfolding finish book
  serve_fallback fuel w cfg lost reg req dec g name m chain ms resp room sound enough named down
        next s models =
      let answer = record resp { provider = name } in
      let charge = charged g.costs req answer in
      let calls =
        call_providers_fallback w lost reg req dec g.router name m chain ms resp down next s
          models in
      let (c, stored, _, _) =
        put_total w.hash fuel cfg.cache req charge w.tidied w.stored g.cache room enough sound.cache
          sound.few in
      let router =
        report_success (w.reported 1) name resp.latency_ms
          (report_failure (w.reported 0) dec.provider g.router) in
      let finished : finish fuel w cfg req dec answer (record g { router = router })
          ≡ some (
            record (book w cfg req charge (record g { router = router })) { cache = c },
            miss charge dec.strategy_used,
          ) =
        rw (stored, finish) refl in
      (
        _,
        serve_found fuel w cfg reg (calls_of lost reg) req dec g down.provider named down.found
            ∙ ap (served_by fuel w cfg req dec g) calls
            ∙ finished,
        refl,
      )
