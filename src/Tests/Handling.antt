-- ===== src/Tests/Handling.antt =====
-- Runs of the handler, the fallbacks and the registry.
use cost_optimized_llm_infer.Common.{
  ℕ, zero, suc, true, [], ◌∷◌, none, some, Text, codes, ◌≡◌, ◌⊎◌, refl, arith, ℤ, pos, ◌+ℤ◌, ◌*ℤ◌,
  All,
}
use cost_optimized_llm_infer.Types.{ChatResponse, RouteDecision, smart}
use cost_optimized_llm_infer.Cache.{to_size_t, init}
use cost_optimized_llm_infer.Cache.Invariant.{IsLinked-nil}
use cost_optimized_llm_infer.CostTracker.{get_summary}
use cost_optimized_llm_infer.Providers.{
  Registry, Provider, Reply, answered, raised, find_provider, groq,
}
use cost_optimized_llm_infer.Chat.{
  Gateway, World, Calls, hit, miss, finish, look_up, call_providers,
}
use cost_optimized_llm_infer.Chat.Totality.{IsSound}
use cost_optimized_llm_infer.Chat.Answers.{Failed, IsAnswer, call_providers_lem, finish-look_up}
use cost_optimized_llm_infer.Tests.Values.{millionths, hash, request, response, gateway}
use cost_optimized_llm_infer.CostTracker
use cost_optimized_llm_infer.Metrics

abbrev flaky : ℕ → Reply ℤ
flaky zero = raised (codes "timeout")
flaky (suc i) = answered response

abbrev pub groq_provider : Provider
groq_provider = record {
  kind = groq;
  api_key = codes "secret";
  base_url = codes "http://localhost";
  timeout_ms = pos 30_000;
  max_retries = pos 2;
}

abbrev pub world : World
world = record {
  hash = hash;
  created = 1;
  checked = 2;
  refused = 3;
  looked_up = 4;
  accessed = 5;
  reported = λ i. 6;
  recorded = 7;
  tidied = 8;
  stored = 9;
}

abbrev pub idle : Gateway ℤ
idle = record {
  cache = init gateway.cache;
  limiter = [];
  costs = CostTracker.init gateway.pricing;
  metrics = Metrics.init 0;
  router = record { health = []; round_robin_idx = 0; strategy = smart };
}

abbrev pub registry : Registry
registry = (codes "groq", groq_provider) ∷ []

-- The first call raises and every later one is answered.
abbrev pub calls : Calls ℤ
calls i name req = flaky i

pub idle-IsSound : IsSound gateway.cache idle
unfolding init CostTracker.init
idle-IsSound = record { cache = IsLinked-nil 0; few = omega arith; history = tt }

abbrev decided : RouteDecision ℤ
decided = record {
  provider = codes "openai";
  model = codes "gpt-4o";
  strategy_used = smart;
  estimated_cost = pos 0;
  fallback_chain = codes "groq" ∷ [];
}

call_providers_lem_example :
    let reply = (call_providers world registry calls request decided idle.router).1 in
    let first = calls 0 (codes "openai") (record request { model = codes "gpt-4o" }) in
    ((resp : ChatResponse ℤ) × (first ≡ answered resp) × (reply ≡ some resp))
    ⊎ (((e : Text) × (first ≡ raised e))
        × (IsAnswer registry calls decided.fallback_chain request reply
            ⊎ ((reply ≡ none)
                × All
                    (λ name. (find_provider name registry ≡ none) ⊎ Failed calls request name)
                    decided.fallback_chain)))
call_providers_lem_example = call_providers_lem world registry calls request decided idle.router

finish-look_up_example :
    (g' g'' : Gateway ℤ) × (resp : ChatResponse ℤ) × (finish 1 world gateway request decided
        response idle
      ≡ some (g', miss resp smart))
    × (look_up 0
          (record world { looked_up = 100; accessed = 101 })
          gateway
          registry
          calls
          request
          g'
        ≡ some (
          g'',
          hit (record resp { from_cache = true; request_id = codes "r1"; latency_ms = pos 0 }),
        ))
    × (g''.router ≡ g'.router)
    × (g''.costs ≡ g'.costs)
unfolding to_size_t init ◌+ℤ◌ ◌*ℤ◌
finish-look_up_example =
    finish-look_up 1 0 100 101 world gateway registry calls request request decided response idle
      refl refl (omega arith) (omega arith) (IsSound.cache idle-IsSound) refl (omega arith)
