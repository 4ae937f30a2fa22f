-- ===== src/Tests/Sessions.antt =====
-- A series of two requests.
use cost_optimized_llm_infer.Common.{List, [], ◌∷◌, some, codes, ◌≡◌, arith, ℤ, length}
use cost_optimized_llm_infer.Cache.{to_size_t, init}
use cost_optimized_llm_infer.CostTracker.{get_spend}
use cost_optimized_llm_infer.Chat.{Gateway, Outcome}
use cost_optimized_llm_infer.Chat.Totality.{IsSound}
use cost_optimized_llm_infer.Chat.Series.{
  Arrival, IsCounted, bill, handle_all, get_spend-handle_all,
}
use cost_optimized_llm_infer.Tests.Values.{millionths, request, gateway}
use cost_optimized_llm_infer.Tests.Handling.{world, idle, idle-IsSound, registry, calls}

abbrev again : Arrival ℤ
again = record { world = world; calls = calls; request = request }

get_spend-handle_all_example :
    (g : Gateway ℤ) × (outs : List (Outcome ℤ)) × (handle_all 2 gateway registry
        (again ∷ again ∷ [])
        idle
      ≡ some (g, outs))
    × (length outs ≡ 2)
    × IsCounted outs idle.metrics g.metrics
    × (get_spend (codes "k") g.costs
        ≡ bill (codes "k") (again ∷ again ∷ []) outs (get_spend (codes "k") idle.costs))
    × IsSound gateway.cache g
unfolding to_size_t init
get_spend-handle_all_example =
    get_spend-handle_all (codes "k") 2 gateway registry (again ∷ again ∷ []) idle (λ e. absurd cc)
      (omega arith) (omega arith) idle-IsSound
