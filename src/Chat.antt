-- ===== src/Chat.antt =====
-- src/api/chat_completions.cpp: the handler of a chat completion from the parsed request on. JSON,
-- headers and log lines are left out; a response is what they are made of. The result of
-- `authenticate` decides nothing in the code but a log line, and is not taken.
pub mod Totality
pub mod Answers
pub mod Books
pub mod Ledger
pub mod Live
pub mod Series
pub mod Served
pub mod Apart
pub mod Lasting
use cost_optimized_llm_infer.Common.{
  ℕ, suc, true, false, List, [], ◌∷◌, Option, none, some, Text, is_empty, pos, Double,
  if◌then◌else◌,
}
use cost_optimized_llm_infer.Types.{
  ChatRequest, ChatResponse, RequestMetrics, RouteDecision, RoutingStrategy,
}
use cost_optimized_llm_infer.TokenCounter.{count_messages}
use cost_optimized_llm_infer.Cache.{Cache, get, put}
use cost_optimized_llm_infer.RateLimiter.{RateLimiter, Result, check_request, record_tokens}
use cost_optimized_llm_infer.CostTracker.{CostTracker, estimate_cost, record_request}
use cost_optimized_llm_infer.Metrics.{
  Metrics, inc_requests, inc_errors, inc_cache_hits, inc_cache_misses, observe_latency,
  observe_tokens,
}
use cost_optimized_llm_infer.Config.{GatewayConfig}
use cost_optimized_llm_infer.Router.{Router, report_success, report_failure}
use cost_optimized_llm_infer.Router.Dispatch.{route}
use cost_optimized_llm_infer.Providers.{
  Registry, Reply, answered, raised, find_provider, supported_models,
}

-- The singletons that the handler changes.
pub record Gateway (F : Type 0) : Type 0 where
  pub cache : Cache F
  pub limiter : RateLimiter
  pub costs : CostTracker F
  pub metrics : Metrics F
  pub router : Router F

-- The hash function, and the readings of the clock: `reported i` is that of the report on call `i`.
pub record World : Type 0 where
  pub hash : Text → ℕ
  pub created : ℕ
  pub checked : ℕ
  pub refused : ℕ
  pub looked_up : ℕ
  pub accessed : ℕ
  pub reported : ℕ → ℕ
  pub recorded : ℕ
  pub tidied : ℕ
  pub stored : ℕ

-- The responses of the handler: 400, 429, a hit, 503 twice, 502, and a miss that was answered.
pub data Outcome (F : Type 0) : Type 0 where
  no_messages : Outcome F
  limited : Result → Outcome F
  hit : ChatResponse F → Outcome F
  no_providers : Text → Outcome F
  not_available : Text → Outcome F
  all_failed : Text → Outcome F
  miss : ChatResponse F → RoutingStrategy → Outcome F

-- `call i name request` is the reply of the provider to call number `i` of the handler.
abbrev pub Calls : Type 0 → Type 0
Calls F = ℕ → Text → ChatRequest F → Reply F

module _ {F : Type 0} ⦃d : Double F⦄ where
  -- The loop over the fallbacks, with the number of the next call.
  unfoldable pub try_fallbacks :
      World
      → Registry
      → Calls F
      → (i : ℕ) → List Text
      → ChatRequest F
      → Router F
      → Router F × Option (ChatResponse F)
  try_fallbacks w reg call i [] req r = (r, none)
  try_fallbacks w reg call i (name ∷ chain) req r = elim (find_provider name reg) [
    | none ↦ try_fallbacks w reg call i chain req r
    | some p ↦ elim (supported_models p.kind) [
      | [] ↦ try_fallbacks w reg call i chain req r
      | m ∷ ms ↦ elim (call i name (record req { model = m })) [
        | raised e ↦
            try_fallbacks w reg call (suc i) chain (record req { model = m })
              (report_failure (w.reported i) name r)
        | answered resp ↦ (
          report_success (w.reported i) name resp.latency_ms r,
          some (record resp { provider = name }),
        )
      ]
    ]
  ]

  -- The call of the provider that was chosen, and of the fallbacks if it raises.
  unfoldable pub call_providers :
      World
      → Registry
      → Calls F
      → ChatRequest F
      → RouteDecision F
      → Router F
      → Router F × Option (ChatResponse F)
  call_providers w reg call req dec r =
      elim (call 0 dec.provider (record req { model = dec.model })) [
        | answered resp ↦ (report_success (w.reported 0) dec.provider resp.latency_ms r, some resp)
        | raised e ↦
            try_fallbacks w reg call 1 dec.fallback_chain (record req { model = dec.model })
              (report_failure (w.reported 0) dec.provider r)
      ]

  -- The record of a request that was answered.
  unfoldable pub metrics_of : World → ChatRequest F → ChatResponse F → RequestMetrics F
  metrics_of w req resp = record {
    request_id = req.request_id;
    api_key = req.api_key;
    provider = resp.provider;
    model = resp.model;
    prompt_tokens = resp.prompt_tokens;
    completion_tokens = resp.completion_tokens;
    latency_ms = resp.latency_ms;
    cost_usd = resp.cost_usd;
    cache_hit = false;
    success = true;
    error_message = [];
    timestamp = w.recorded;
  }

  -- The response with its cost and the identity of the request.
  unfoldable pub charged : CostTracker F → ChatRequest F → ChatResponse F → ChatResponse F
  charged t req resp = record resp {
    cost_usd = estimate_cost resp.provider resp.model resp.prompt_tokens resp.completion_tokens t;
    request_id = req.request_id;
  }

  -- The books of a request that was answered, all but the cache.
  unfoldable pub book :
      World → GatewayConfig F → ChatRequest F → ChatResponse F → Gateway F → Gateway F
  book w cfg req resp g = record g {
    costs = record_request (metrics_of w req resp) g.costs;
    limiter =
        if is_empty req.api_key
        then g.limiter
        else record_tokens cfg.rate_limit req.api_key resp.total_tokens w.created g.limiter;
    metrics = observe_tokens resp.total_tokens (observe_latency resp.latency_ms g.metrics);
  }

  -- Steps 7 to 9; `none`: `put` has not ended within `fuel` rounds.
  unfoldable pub finish :
      ℕ
      → World
      → GatewayConfig F
      → ChatRequest F
      → RouteDecision F
      → ChatResponse F
      → Gateway F
      → Option (Gateway F × Outcome F)
  finish fuel w cfg req dec answer g =
      let resp = charged g.costs req answer in
      let g' = book w cfg req resp g in
      elim (put w.hash fuel cfg.cache req resp w.tidied w.stored g'.cache) [
        | none ↦ none
        | some c ↦ some (record g' { cache = c }, miss resp dec.strategy_used)
      ]

  -- Steps 5 and 6, behind the decision.
  unfoldable pub serve :
      ℕ
      → World
      → GatewayConfig F
      → Registry
      → Calls F
      → ChatRequest F
      → RouteDecision F
      → Gateway F
      → Option (Gateway F × Outcome F)
  serve fuel w cfg reg call req dec g =
      if is_empty dec.provider
      then some (record g { metrics = inc_errors g.metrics }, no_providers req.model)
      else elim (find_provider dec.provider reg) [
        | none ↦ some (record g { metrics = inc_errors g.metrics }, not_available dec.provider)
        | some p ↦
            let (r, reply) = call_providers w reg call req dec g.router in
            elim reply [
              | none ↦
                  some
                    (record g { router = r; metrics = inc_errors g.metrics }, all_failed req.model)
              | some answer ↦ finish fuel w cfg req dec answer (record g { router = r })
            ]
      ]

  -- Steps 4 to 9; `none`: a dangling iterator in the cache, or an index out of range in the router.
  unfoldable pub look_up :
      ℕ
      → World
      → GatewayConfig F
      → Registry
      → Calls F
      → ChatRequest F
      → Gateway F
      → Option (Gateway F × Outcome F)
  look_up fuel w cfg reg call req g =
      elim (get w.hash cfg.cache req w.looked_up w.accessed g.cache) [
        | none ↦ none
        | some (c, cached) ↦ elim cached [
          | some resp ↦ some (record g { cache = c; metrics = inc_cache_hits g.metrics }, hit resp)
          | none ↦ elim (route req cfg g.router) [
            | none ↦ none
            | some (dec, r) ↦
                serve fuel w cfg reg call req dec
                  (record g { cache = c; metrics = inc_cache_misses g.metrics; router = r })
          ]
        ]
      ]

  -- Steps 3 to 9.
  unfoldable pub admit_request :
      ℕ
      → World
      → GatewayConfig F
      → Registry
      → Calls F
      → ChatRequest F
      → Gateway F
      → Option (Gateway F × Outcome F)
  admit_request fuel w cfg reg call req g =
      if is_empty req.api_key
      then look_up fuel w cfg reg call req g
      else let (l, r) =
          check_request cfg.rate_limit req.api_key (pos (count_messages req.messages)) w.created
            w.checked w.refused g.limiter in
        let g' = record g { limiter = l } in
        if r.allowed then look_up fuel w cfg reg call req g' else some (g', limited r)

  -- The handler.
  unfoldable pub handle :
      ℕ
      → World
      → GatewayConfig F
      → Registry
      → Calls F
      → ChatRequest F
      → Gateway F
      → Option (Gateway F × Outcome F)
  handle fuel w cfg reg call req g =
      let g' = record g { metrics = inc_requests g.metrics } in
      elim req.messages [
        | [] ↦ some (g', no_messages)
        | m ∷ ms ↦ admit_request fuel w cfg reg call req g'
      ]
