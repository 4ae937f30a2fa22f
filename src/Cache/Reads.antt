-- ===== src/Cache/Reads.antt =====
-- `Cache::get` against its description by keys.
use cost_optimized_llm_infer.Common.{
  ℕ, Bool, true, false, ◌∷◌, Option, none, some, Text, ◌≡◌, arith, Bool-cases, inl, inr,
  Option-cases, if◌then◌else◌, pos, erase, length, ◌≤◌, Double,
}
use cost_optimized_llm_infer.Types.{ChatRequest, ChatResponse}
use cost_optimized_llm_infer.Cache.{
  Cache, CacheConfig, CacheEntry, inc64, is_expired, get, make_key,
}
use cost_optimized_llm_infer.Cache.Invariant.{IsValid, IsLinked-remove, IsLinked-front}
use cost_optimized_llm_infer.Cache.Entries.{
  find_key, remove_key, find_node-find_key, remove_node-find_key, length-remove_key,
}

module _ {F : Type 0} ⦃d : Double F⦄ where
  open d use {of_int, add}

  -- The answer to a hit.
  abbrev pub answer : ChatRequest F → CacheEntry F → ChatResponse F
  answer req e = record (e.response) {
    from_cache = true;
    request_id = req.request_id;
    latency_ms = of_int (pos 0);
  }

  -- `get` by keys, with the switch of the configuration and the key as arguments: a disabled cache
  -- and an absent key count a miss, an expired entry is dropped, and any other goes to the front.
  unfoldable pub read_by_key :
      Bool
      → Text
      → ChatRequest F
      → (checked accessed : ℕ) → Cache F
      → Cache F × Option (ChatResponse F)
  read_by_key false key req checked accessed c = (record c { misses = inc64 c.misses }, none)
  read_by_key true key req checked accessed c = elim (find_key key c.entries) [
    | none ↦ (record c { misses = inc64 c.misses }, none)
    | some e ↦
        if is_expired checked e
        then (
          record c {
            entries = remove_key key c.entries;
            index = erase key c.index;
            misses = inc64 c.misses;
          },
          none,
        )
        else (
          record c {
            entries = record e { last_accessed = accessed } ∷ remove_key key c.entries;
            hits = inc64 c.hits;
            savings_usd = add c.savings_usd e.response.cost_usd;
          },
          some (answer req e),
        )
  ]

  -- `get` keeps the index and the list in agreement.
  pub read_by_key-IsValid :
      (on : Bool) (key : Text) (req : ChatRequest F) (checked accessed : ℕ) (c : Cache F)
      → IsValid c
      → IsValid (read_by_key on key req checked accessed c).0
  unfolding read_by_key
  read_by_key-IsValid false key req checked accessed c v = v
  read_by_key-IsValid true key req checked accessed c v =
      elim (Option-cases (find_key key c.entries)) [
        | inl e ↦ rw (e, read_by_key) v
        | inr (x, e) ↦ elim (Bool-cases (is_expired checked x)) [
          | inl old ↦ rw (e, old, read_by_key) (IsLinked-remove key v)
          | inr live ↦ rw (e, live, read_by_key) (IsLinked-front key x accessed v e)
        ]
      ]

  pub length-read_by_key :
      (on : Bool) (key : Text) (req : ChatRequest F) (checked accessed : ℕ) (c : Cache F)
      → length (read_by_key on key req checked accessed c).0.entries ≤ length c.entries
  unfolding read_by_key
  length-read_by_key false key req checked accessed c = omega arith
  length-read_by_key true key req checked accessed c =
      elim (Option-cases (find_key key c.entries)) [
        | inl e ↦ rw (e, read_by_key) (omega arith)
        | inr (x, e) ↦ elim (Bool-cases (is_expired checked x)) [
          | inl old ↦ rw (e, old, read_by_key) (omega (arith, length-remove_key key c.entries x e))
          | inr live ↦
              rw (e, live, read_by_key) (omega (arith, length-remove_key key c.entries x e))
        ]
      ]

  -- A live entry under the key is the answer.
  pub read_by_key_hit :
      (key : Text) (req : ChatRequest F) (checked accessed : ℕ) (c : Cache F) (e : CacheEntry F)
      → find_key key c.entries ≡ some e
      → is_expired checked e ≡ false
      → (read_by_key true key req checked accessed c).1 ≡ some (answer req e)
  unfolding read_by_key
  read_by_key_hit key req checked accessed c e found live = ground arith

module _ {F : Type 0} ⦃d : Double F⦄ (hash : Text → ℕ) where
  -- On a cache whose index and list agree, `get` follows no dangling iterator and does what a search of
  -- the list for the key would do: a disabled cache and an absent key count a miss, an expired entry
  -- is dropped with its key, and any other entry is the answer and goes to the front.
  pub get-read_by_key :
      (cfg : CacheConfig) (req : ChatRequest F) (checked accessed : ℕ) (c : Cache F)
      → IsValid c
      → get hash cfg req checked accessed c
        ≡ some (read_by_key cfg.enabled (make_key hash cfg req) req checked accessed c)
  unfolding get read_by_key
  get-read_by_key cfg req checked accessed c v =
      let key = make_key hash cfg req in
      elim (Option-cases (find_key key c.entries)) [
        | inl e ↦ ground (arith, v.indexed key)
        | inr (x, e) ↦ ground (
          arith,
          v.indexed key,
          find_node-find_key key c.entries x v.distinct e,
          remove_node-find_key key c.entries x v.distinct e,
        )
      ]

  -- On such a cache `get` ends, and the index and the list agree behind it.
  pub get-IsValid :
      (cfg : CacheConfig) (req : ChatRequest F) (checked accessed : ℕ) (c : Cache F)
      → IsValid c
      → (out : Cache F × Option (ChatResponse F)) × (get hash cfg req checked accessed c ≡ some out)
        × IsValid out.0
  get-IsValid cfg req checked accessed c v = (
    _,
    get-read_by_key cfg req checked accessed c v,
    read_by_key-IsValid cfg.enabled (make_key hash cfg req) req checked accessed c v,
  )

  -- A read never makes the list longer.
  pub length-get :
      (cfg : CacheConfig) (req : ChatRequest F) (checked accessed : ℕ) (c : Cache F)
      → IsValid c
      → (out : Cache F × Option (ChatResponse F)) × (get hash cfg req checked accessed c ≡ some out)
        × IsValid out.0
        × (length out.0.entries ≤ length c.entries)
  length-get cfg req checked accessed c v = (
    _,
    get-read_by_key cfg req checked accessed c v,
    read_by_key-IsValid cfg.enabled (make_key hash cfg req) req checked accessed c v,
    length-read_by_key cfg.enabled (make_key hash cfg req) req checked accessed c,
  )
