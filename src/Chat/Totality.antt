-- ===== src/Chat/Totality.antt =====
-- The end of the handler, and the state behind it.
use cost_optimized_llm_infer.Common.{
  ℕ, ◌<◌, ◌≤◌, sym, ◌∙◌, List, [], ◌∷◌, Option, some, Text, is_empty, ◌≡◌, refl, pos, Double, arith,
  Bool-cases, Option-cases, inl, inr, length,
}
use cost_optimized_llm_infer.Types.{Message, ChatRequest, ChatResponse, RouteDecision}
use cost_optimized_llm_infer.Metrics.{inc_requests, inc_cache_misses}
use cost_optimized_llm_infer.TokenCounter.{count_messages}
use cost_optimized_llm_infer.Cache.{Cache, CacheConfig, put, to_size_t}
use cost_optimized_llm_infer.Cache.Invariant.{IsValid}
use cost_optimized_llm_infer.Cache.Reads.{length-get}
use mathlib.Core.Option.{some-injective}
use mathlib.Core.Path.{subst}
use cost_optimized_llm_infer.Cache.Store.{put_lem, length-put}
use cost_optimized_llm_infer.RateLimiter.{check_request}
use cost_optimized_llm_infer.CostTracker.{get_summary}
use cost_optimized_llm_infer.Config.{GatewayConfig}
use cost_optimized_llm_infer.Router.Ready.{route_total}
use cost_optimized_llm_infer.Providers.{Registry, find_provider}
use cost_optimized_llm_infer.Chat.{
  Gateway, World, Calls, Outcome, call_providers, charged, book, finish, serve, look_up,
  admit_request, handle,
}
use cost_optimized_llm_infer.Chat.Books.{NoHits, get_summary-cached, record_request-NoHits}

module _ {F : Type 0} ⦃d : Double F⦄ where
  pub put_total :
      (hash : Text → ℕ) (fuel : ℕ) (cfg : CacheConfig) (req : ChatRequest F) (resp : ChatResponse F)
      (tidied stored : ℕ) (c : Cache F)
      → 0 < to_size_t cfg.max_entries
      → length c.entries < fuel
      → IsValid c
      → length c.entries ≤ to_size_t cfg.max_entries
      → (c' : Cache F) × (put hash fuel cfg req resp tidied stored c ≡ some c')
        × IsValid c'
        × (length c'.entries ≤ to_size_t cfg.max_entries)
  unfolding put
  put_total hash fuel cfg req resp tidied stored c room enough v few =
      elim (Bool-cases cfg.enabled) [
        | inl on ↦ elim (Bool-cases req.stream) [
          | inl stream ↦ (c, ground arith, v, few)
          | inr plain ↦
              let (c', stored_as, v', _) =
                put_lem hash fuel cfg req resp tidied stored c on plain room enough v in
              let (c'', again, le, size) =
                length-put hash fuel cfg req resp tidied stored c on plain room enough v in
              let same = some-injective c'' c' (sym again ∙ stored_as) in
              (
                c',
                stored_as,
                v',
                subst (λ (x : Cache F). length x.entries ≤ to_size_t cfg.max_entries) same
                    (subst (λ n. length c''.entries ≤ n) size le),
              )
        ]
        | inr off ↦ (c, ground arith, v, few)
      ]

  -- A gateway whose cache is sound and within its room and whose history has no hits.
  pub record IsSound (cfg : CacheConfig) (g : Gateway F) : Type 0 where
    pub cache : IsValid g.cache
    pub few : length g.cache.entries ≤ to_size_t cfg.max_entries
    pub history : NoHits g.costs.history

  -- A step of the handler ends, in such a gateway.
  Ends : CacheConfig → Option (Gateway F × Outcome F) → Type 0
  Ends cfg o = (out : Gateway F × Outcome F) × (o ≡ some out) × IsSound cfg out.0

module _ {F : Type 0} ⦃d : Double F⦄ (fuel : ℕ) (w : World) (cfg : GatewayConfig F)
    (room : 0 < to_size_t cfg.cache.max_entries) where
  finish-Ends :
      (req : ChatRequest F) (dec : RouteDecision F) (answer : ChatResponse F) (g : Gateway F)
      → IsSound cfg.cache g
      → length g.cache.entries < fuel
      → Ends cfg.cache (finish fuel w cfg req dec answer g)
  unfolding finish book Ends
  finish-Ends req dec answer g s enough =
      let resp = charged g.costs req answer in
      let (c, made, v, few) =
        put_total w.hash fuel cfg.cache req resp w.tidied w.stored g.cache room enough s.cache
          s.few in
      rw (made, finish)
        (
          _,
          refl,
          record {
            cache = v;
            few = few;
            history = record_request-NoHits w req resp g.costs s.history;
          },
        )

  serve-Ends :
      (reg : Registry) (call : Calls F) (req : ChatRequest F) (dec : RouteDecision F)
      (g : Gateway F)
      → IsSound cfg.cache g
      → length g.cache.entries < fuel
      → Ends cfg.cache (serve fuel w cfg reg call req dec g)
  unfolding serve Ends
  serve-Ends reg call req dec g s enough = elim (Bool-cases (is_empty dec.provider)) [
    | inl nobody ↦
        rw (nobody, serve) (_, refl, record { cache = s.cache; few = s.few; history = s.history })
    | inr named ↦ elim (Option-cases (find_provider dec.provider reg)) [
      | inl missing ↦
          rw (named, missing, serve)
            (_, refl, record { cache = s.cache; few = s.few; history = s.history })
      | inr (p, found) ↦ elim (Option-cases (call_providers w reg call req dec g.router).1) [
        | inl failed ↦
            rw (named, found, failed, serve)
              (_, refl, record { cache = s.cache; few = s.few; history = s.history })
        | inr (answer, replied) ↦
            rw (named, found, replied, serve)
              (finish-Ends req dec answer
                (record g { router = (call_providers w reg call req dec g.router).0 })
                (record { cache = s.cache; few = s.few; history = s.history }) enough)
      ]
    ]
  ]

  look_up-Ends :
      (reg : Registry) (call : Calls F) (req : ChatRequest F) (g : Gateway F)
      → IsSound cfg.cache g
      → length g.cache.entries < fuel
      → Ends cfg.cache (look_up fuel w cfg reg call req g)
  unfolding look_up Ends
  look_up-Ends reg call req g s enough =
      let ((c, cached), read, v, few) =
        length-get w.hash cfg.cache req w.looked_up w.accessed g.cache s.cache in
      elim (Option-cases cached) [
        | inr (resp, e) ↦
            rw (read, e, look_up)
              (_, refl, record { cache = v; few = omega (arith, few, s.few); history = s.history })
        | inl e ↦
            let ((dec, r), routed) = route_total cfg g.router req in
            rw (read, e, routed, look_up)
              (serve-Ends reg call req dec
                (record g { cache = c; metrics = inc_cache_misses g.metrics; router = r })
                (record { cache = v; few = omega (arith, few, s.few); history = s.history })
                (omega (arith, few, enough)))
      ]

  admit_request-Ends :
      (reg : Registry) (call : Calls F) (req : ChatRequest F) (g : Gateway F)
      → IsSound cfg.cache g
      → length g.cache.entries < fuel
      → Ends cfg.cache (admit_request fuel w cfg reg call req g)
  unfolding admit_request Ends
  admit_request-Ends reg call req g s enough =
      let (l, r) =
        check_request cfg.rate_limit req.api_key (pos (count_messages req.messages)) w.created
          w.checked w.refused g.limiter in
      elim (Bool-cases (is_empty req.api_key)) [
        | inl anonymous ↦ rw (anonymous, admit_request) (look_up-Ends reg call req g s enough)
        | inr keyed ↦ elim (Bool-cases r.allowed) [
          | inl allowed ↦
              rw (keyed, allowed, admit_request)
                (look_up-Ends reg call req (record g { limiter = l })
                  (record { cache = s.cache; few = s.few; history = s.history }) enough)
          | inr refused ↦
              rw (keyed, refused, admit_request)
                (_, refl, record { cache = s.cache; few = s.few; history = s.history })
        ]
      ]

  -- In a sound gateway, with room for an entry and with fuel beyond the number of entries, the handler
  -- ends with a response to any request and whatever the providers reply, and leaves a sound gateway.
  pub handle_total :
      (reg : Registry) (call : Calls F) (req : ChatRequest F) (g : Gateway F)
      → IsSound cfg.cache g
      → length g.cache.entries < fuel
      → (out : Gateway F × Outcome F) × (handle fuel w cfg reg call req g ≡ some out)
        × IsSound cfg.cache out.0
  unfolding handle Ends
  handle_total reg call req g s enough = by_messages req.messages
    where
      g' : Gateway F
      g' = record g { metrics = inc_requests g.metrics }

      by_messages :
          (ms : List Message)
          → Ends cfg.cache (elim ms [
            | [] ↦ some (g', Outcome.no_messages)
            | m ∷ rest ↦ admit_request fuel w cfg reg call req g'
          ])
      by_messages [] = (_, refl, record { cache = s.cache; few = s.few; history = s.history })
      by_messages (m ∷ ms) =
          admit_request-Ends reg call req g'
            (record { cache = s.cache; few = s.few; history = s.history }) enough

  -- However many requests were answered from the cache, the summary counts none: the handler books
  -- only the requests that a provider answered.
  pub cached_requests_zero :
      (reg : Registry) (call : Calls F) (req : ChatRequest F) (g : Gateway F) (key : Text)
      → IsSound cfg.cache g
      → length g.cache.entries < fuel
      → (out : Gateway F × Outcome F) × (handle fuel w cfg reg call req g ≡ some out)
        × ((get_summary key out.0.costs).cached_requests ≡ pos 0)
  cached_requests_zero reg call req g key s enough =
      let (out, ended, s') = handle_total reg call req g s enough in
      (out, ended, get_summary-cached key out.0.costs s'.history)
