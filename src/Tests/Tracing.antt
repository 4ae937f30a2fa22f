-- ===== src/Tests/Tracing.antt =====
-- Runs of the cache over several calls: a stored response that is read later, and the answers of a
-- sequence.
use cost_optimized_llm_infer.Common.{
  ◌<◌, true, List, [], ◌∷◌, Option, some, ◌≡◌, refl, arith, length, ℤ, pos, ◌+ℤ◌, ◌*ℤ◌, codes,
  show_ℕ, show_ℤ, digits, show_ℕ-injective,
}
use cost_optimized_llm_infer.Types.{ChatResponse}
use cost_optimized_llm_infer.Cache.{
  Cache, CacheConfig, make_key, key_text, message_keys, to_size_t, get, put,
}
use cost_optimized_llm_infer.Cache.Invariant.{IsValid}
use cost_optimized_llm_infer.Cache.Recent.{Access, looked, wrote, recent_run}
use cost_optimized_llm_infer.Cache.Traces.{accesses, accesses-recent_run}
use cost_optimized_llm_infer.Cache.Items.{items}
use cost_optimized_llm_infer.Cache.Survival.{get-accesses-put}
use cost_optimized_llm_infer.Tests.Values.{
  millionths, hash, request, request_for, response, small_cache,
}
use cost_optimized_llm_infer.Tests.Caching.{full, full-IsValid, full-length}

abbrev roomy : CacheConfig
roomy = record small_cache { max_entries = pos 3 }

-- A read of the same key, and a write of another.
abbrev between : List (Access ℤ)
between = looked request 10 11 ∷ wrote (request_for (codes "model")) response 12 13 ∷ []

apart : make_key hash roomy (request_for (codes "model")) ≡ make_key hash roomy request → ⊥
unfolding make_key key_text message_keys show_ℤ show_ℕ digits
apart e = absurd (omega (arith, show_ℕ-injective 34 30 e))

get-accesses-put_example :
    (c1 c2 c3 : Cache ℤ) × (answers : List (Option (ChatResponse ℤ))) × (put hash 4 roomy request
        response 5 6 full
      ≡ some c1)
    × (accesses hash 4 roomy between c1 ≡ some (c2, answers))
    × (get hash roomy request 100 101 c2
        ≡ some (
          c3,
          some (record response { from_cache = true; request_id = codes "r1"; latency_ms = pos 0 }),
        ))
unfolding ◌+ℤ◌ ◌*ℤ◌ to_size_t
get-accesses-put_example =
    get-accesses-put hash 4 roomy request request response 5 6 100 101 between full refl refl
      (omega arith) (omega arith) (omega (arith, full-length)) full-IsValid
      (omega arith, ((apart, omega arith), tt)) refl (omega arith)

accesses-recent_run_example :
    (c : Cache ℤ) × (accesses hash 4 roomy between full
      ≡ some (c, (recent_run hash roomy between (items full)).1))
    × (items c ≡ (recent_run hash roomy between (items full)).0)
    × (length c.entries < 4)
    × IsValid c
unfolding to_size_t
accesses-recent_run_example =
    accesses-recent_run hash 4 roomy between full (omega arith) (omega arith)
      (omega (arith, full-length)) full-IsValid
