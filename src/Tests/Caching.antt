-- ===== src/Tests/Caching.antt =====
-- Runs of the cache: a store into a cache that is full, the read that answers, and its keys.
use cost_optimized_llm_infer.Common.{[], ◌∷◌, ◌++◌, none, some, ◌≡◌, refl, length, ℤ, pos, codes}
use cost_optimized_llm_infer.Cache.{Cache, init, make_key, get, put, push_entry}
use cost_optimized_llm_infer.Cache.Reads.{read_by_key, get-read_by_key}
use cost_optimized_llm_infer.Cache.Invariant.{IsValid, IsLinked-nil, push_entry-IsValid}
use cost_optimized_llm_infer.Cache.Entries.{find_key}
use cost_optimized_llm_infer.Cache.Store.{put_diverges}
use cost_optimized_llm_infer.Cache.Keys.{fused, make_key-fused}
use cost_optimized_llm_infer.Tests.Values.{
  millionths, hash, question, request, response, small_cache,
}

abbrev cold : Cache ℤ
cold = init small_cache

cold-IsValid : IsValid cold
unfolding init
cold-IsValid = IsLinked-nil 0

-- A cache that is full: it holds one entry under another key.
abbrev pub full : Cache ℤ
full = push_entry (codes "old") response 0 cold

pub full-IsValid : IsValid full
unfolding init push_entry find_key
full-IsValid = push_entry-IsValid (codes "old") response 0 cold cold-IsValid refl

pub full-length : length full.entries ≡ 1
unfolding push_entry init
full-length = refl

get-read_by_key_example :
    get hash small_cache request 5 6 full
    ≡ some (read_by_key small_cache.enabled (make_key hash small_cache request) request 5 6 full)
get-read_by_key_example = get-read_by_key hash small_cache request 5 6 full full-IsValid

put_diverges_example :
    put hash 3 (record small_cache { max_entries = pos 0 }) request response 5 6 full ≡ none
put_diverges_example =
    put_diverges hash 3 (record small_cache { max_entries = pos 0 }) request response 5 6 full refl
      refl refl

make_key-fused_example :
    make_key hash small_cache (record request { messages = [] ++ (fused question question ∷ []) })
    ≡ make_key hash small_cache (record request { messages = [] ++ (question ∷ question ∷ []) })
make_key-fused_example = make_key-fused hash small_cache request [] question question []
