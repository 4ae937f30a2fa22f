-- ===== src/Tests/Outages.antt =====
-- Runs of the handler while providers are down.
use cost_optimized_llm_infer.Common.{
  ◌+◌, ◌*◌, ◌^◌, ℕ, zero, suc, false, ◌<◌, ◌≤◌, [], ◌∷◌, some, Text, codes, ◌≡◌, ◌≢◌, ◌⊎◌, refl,
  arith, ℤ, pos, lookup, text_dec, split_at_byte, All, is_empty,
}
use cost_optimized_llm_infer.Types.{ChatRequest, ChatResponse, ProviderHealth, RouteDecision, smart}
use cost_optimized_llm_infer.Cache.{to_size_t, init}
use cost_optimized_llm_infer.Metrics.{inc_requests}
use cost_optimized_llm_infer.Router.{is_down, resolve_model_alias, report_success, report_failure}
use cost_optimized_llm_infer.Providers.{
  Registry, Provider, Reply, answered, raised, returned, rethrown, find_provider, supported_models,
  together, with_retry,
}
use cost_optimized_llm_infer.Providers.Retry.{backoff, Fail}
use cost_optimized_llm_infer.Providers.Delays.{sum, with_retry_ends}
use cost_optimized_llm_infer.Json.{value, first_item}
use cost_optimized_llm_infer.Providers.Bodies.{
  filled, groq_response, parse_chat, choice_content, chat_usage,
}
use cost_optimized_llm_infer.Providers.Client.{
  parse_response, HttpResult, no_answer, http_answer, HttpPost,
}
use cost_optimized_llm_infer.Chat.{Gateway, Calls, Outcome, miss, handle, serve, charged}
use cost_optimized_llm_infer.Chat.Totality.{IsSound}
use cost_optimized_llm_infer.Chat.Ledger.{IsPriced, tallied, billed, handle-tallied}
use cost_optimized_llm_infer.Chat.Lasting.{handle-is_down}
use cost_optimized_llm_infer.Chat.Live.{calls_of, RefusesAll, Serves, serve_fallback}
use cost_optimized_llm_infer.Tests.Values.{millionths, request, response, gateway}
use cost_optimized_llm_infer.Tests.JsonValues.{Value, library, library_numbers, answer_of}
use cost_optimized_llm_infer.Tests.Handling.{
  groq_provider, world, idle, idle-IsSound, registry, calls,
}

handle-tallied_example :
    (g : Gateway ℤ) × (out : Outcome ℤ) × (handle 1 world gateway registry calls request idle
      ≡ some (g, out))
    × (g.metrics ≡ tallied out (inc_requests idle.metrics))
    × (g.costs ≡ billed world request out idle.costs)
    × IsPriced idle.costs out
    × IsSound gateway.cache g
unfolding to_size_t init
handle-tallied_example =
    handle-tallied 1 world gateway registry calls request idle (omega arith) idle-IsSound
      (omega arith)

-- The record of a provider that is not available.
abbrev out_of_order : ProviderHealth ℤ
out_of_order = record {
  name = codes "a";
  available = false;
  avg_latency_ms = pos 0;
  error_rate = pos 600_000;
  requests_last_minute = pos 0;
  errors_last_minute = pos 6;
  last_success = 0;
  last_error = 5;
}

abbrev limping : Gateway ℤ
limping = record idle {
  router = record {
    health = (codes "a", out_of_order) ∷ [];
    round_robin_idx = 0;
    strategy = smart;
  };
}

limping-IsSound : IsSound gateway.cache limping
limping-IsSound = record {
  cache = idle-IsSound.cache;
  few = idle-IsSound.few;
  history = idle-IsSound.history;
}

-- The provider that is down would answer now.
abbrev repaired : Calls ℤ
repaired i name req = elim (text_dec name (codes "a")) [
  | yes p ↦ answered response
  | no p ↦ calls i name req
]

repaired_alike :
    (i : ℕ) (other : Text) (req : ChatRequest ℤ)
    → other ≢ codes "a"
    → calls i other req ≡ repaired i other req
repaired_alike i other req ne = elim (text_dec other (codes "a")) [
  | yes p ↦ absurd (ne p)
  | no p ↦ ground (arith, ne)
]

handle-is_down_example :
    (out : Gateway ℤ × Outcome ℤ) × (handle 1 world gateway registry calls request limping
      ≡ some out)
    × (handle 1 world gateway registry repaired request limping ≡ some out)
    × (lookup (codes "a") out.0.router.health ≡ lookup (codes "a") limping.router.health)
unfolding to_size_t init is_down lookup text_dec resolve_model_alias split_at_byte
handle-is_down_example =
    handle-is_down 1 world gateway registry (codes "a") calls repaired request limping (omega arith)
      limping-IsSound (omega arith) refl refl (λ e. absurd cc) repaired_alike

with_retry_ends_example :
    let fn : ℕ → Reply ℤ = λ i. raised (codes "down") in
    (k : ℕ) × (k ≤ 2)
    × Fail 0 k fn
    × (((resp : ChatResponse ℤ) × (fn k ≡ answered resp)
          × (with_retry (pos 2) fn ≡ (backoff 0 k, returned resp)))
        ⊎ ((e : Text) × (k ≡ 2)
            × (fn k ≡ raised e)
            × (with_retry (pos 2) fn ≡ (backoff 0 k, rethrown e))))
    × (sum (with_retry (pos 2) fn).0 + 100 ≡ 100 * 2 ^ k)
    × ((25 < 2) ⊎ All (λ ms. ms < 2 ^ 31) (with_retry (pos 2) fn).0)
with_retry_ends_example = with_retry_ends 2 (λ i. raised (codes "down"))

abbrev together_provider : Provider
together_provider = record groq_provider { kind = together }

abbrev two : Registry
two = (codes "together", together_provider) ∷ registry

abbrev choice : RouteDecision ℤ
choice = record {
  provider = codes "together";
  model = codes "big";
  strategy_used = smart;
  estimated_cost = pos 0;
  fallback_chain = codes "groq" ∷ [];
}

-- The first call finds nobody; the second one is answered at once.
abbrev network : ℕ → ℕ → HttpPost Value → HttpResult
network zero a post = no_answer (codes "timeout")
network (suc i) a post = http_answer 200 (codes "hello")

abbrev instant : ℕ → ℕ → ℤ
instant i a = pos 0

together_RefusesAll :
    RefusesAll network instant library.null two 0
      (codes "together")
      (record request { model = codes "big" })
unfolding find_provider lookup text_dec
together_RefusesAll = record {
  provider = together_provider;
  found = refl;
  retries = 2;
  allowed = refl;
  refused = λ a le. tt;
}

abbrev greeting : ChatResponse ℤ
greeting =
    filled (codes "groq") (codes "llama-3.1-8b-instant") (codes "hello")
      (record { prompt = pos 0; completion = pos 0; total = pos 0 })
      (record request { model = codes "llama-3.1-8b-instant" }) (pos 0)

groq_Serves :
    Serves network instant library.null two 1
      (codes "groq")
      (record request { model = codes "llama-3.1-8b-instant" })
      greeting
unfolding find_provider lookup text_dec parse_response groq_response parse_chat choice_content
    chat_usage value first_item
groq_Serves = record {
  provider = groq_provider;
  found = refl;
  retries = 2;
  allowed = refl;
  tried = 0;
  within = omega arith;
  refused = λ a lt. absurd (omega (arith, lt));
  status = 200;
  ok = omega arith;
  body = codes "hello";
  sent = refl;
  value = answer_of (codes "hello");
  parsed = refl;
  read = refl;
}

serve_fallback_example :
    (g : Gateway ℤ) × (serve 1 world gateway two
        (calls_of network instant library.null (raised []) two)
        request
        choice
        idle
      ≡ some (
        g,
        miss (charged idle.costs request (record greeting { provider = codes "groq" })) smart,
      ))
    × (g.router
        ≡ report_success 6 (codes "groq") (pos 0) (report_failure 6 (codes "together") idle.router))
unfolding to_size_t init is_empty supported_models groq_Serves filled
serve_fallback_example =
    serve_fallback network instant library.null 1 world gateway (raised []) two request choice idle
      (codes "groq") (codes "llama-3.1-8b-instant") [] _ greeting (omega arith) idle-IsSound
      (omega arith) refl together_RefusesAll refl groq_Serves refl
