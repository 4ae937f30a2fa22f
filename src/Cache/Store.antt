-- ===== src/Cache/Store.antt =====
-- What `Cache::put` comes to: its end, the size behind it, and the reads that follow.
use cost_optimized_llm_infer.Common.{
  ℕ, ◌-◌, ◌<◌, ◌≤◌, true, false, none, some, Text, text_dec, ◌≡◌, sym, ap, ◌∙◌, arith, length,
  length-keep-le, length-take-le, take, pos, ◌+ℤ◌, ◌*ℤ◌, ◌≤ℤ◌, if_pos, Double,
}
use cost_optimized_llm_infer.Types.{ChatRequest, ChatResponse, second}
use cost_optimized_llm_infer.Cache.{
  Cache, CacheConfig, CacheEntry, is_expired, get, put, make_key, to_size_t, drop_key,
}
use cost_optimized_llm_infer.Cache.Invariant.{IsValid, forget}
use cost_optimized_llm_infer.Cache.Expiry.{is_live}
use cost_optimized_llm_infer.Cache.Room.{make_room_zero}
use cost_optimized_llm_infer.Cache.Reads.{read_by_key, read_by_key_hit, get-read_by_key}
use cost_optimized_llm_infer.Cache.Writes.{written, without_expired, store_lem}
use cost_optimized_llm_infer.Cache.Entries.{find_key, remove_key}

-- The cache with the limits that `put` reads from the configuration.
abbrev pub configured : {F : Type 0} → CacheConfig → Cache F → Cache F
configured cfg c = record c { max_size = to_size_t cfg.max_entries; ttl_seconds = cfg.ttl_seconds }

module _ {F : Type 0} where
  length-without_expired :
      (now : ℕ) (c : Cache F) → length (without_expired now c).entries ≤ length c.entries
  length-without_expired now c = ground (arith, length-keep-le (is_live now) c.entries)

  drop_key-max_size : (key : Text) (c : Cache F) → (drop_key key c).max_size ≡ c.max_size
  unfolding drop_key
  drop_key-max_size key c = ground arith

module _ {F : Type 0} ⦃d : Double F⦄ (hash : Text → ℕ) where
  open d use {of_int}

  -- A request that is to be stored, in a cache that may hold an entry, is stored: with fuel beyond
  -- the number of entries the loop ends, the index and the list agree, and the cache is the one
  -- described by keys.
  pub put_lem :
      (fuel : ℕ) (cfg : CacheConfig) (req : ChatRequest F) (resp : ChatResponse F)
      (tidied stored : ℕ) (c : Cache F)
      → cfg.enabled ≡ true
      → req.stream ≡ false
      → 0 < to_size_t cfg.max_entries
      → length c.entries < fuel
      → IsValid c
      → (c' : Cache F) × (put hash fuel cfg req resp tidied stored c ≡ some c')
        × IsValid c'
        × (forget c'
            ≡ forget (written (make_key hash cfg req) resp tidied stored (configured cfg c)))
  unfolding put
  put_lem fuel cfg req resp tidied stored c on plain room few v =
      let (c', run, valid, same) =
        store_lem fuel (make_key hash cfg req) resp tidied stored (configured cfg c) room few v in
      (c', ground arith, valid, same)

  -- The cache never holds more entries than the configuration allows after a write.
  pub length-put :
      (fuel : ℕ) (cfg : CacheConfig) (req : ChatRequest F) (resp : ChatResponse F)
      (tidied stored : ℕ) (c : Cache F)
      → cfg.enabled ≡ true
      → req.stream ≡ false
      → 0 < to_size_t cfg.max_entries
      → length c.entries < fuel
      → IsValid c
      → (c' : Cache F) × (put hash fuel cfg req resp tidied stored c ≡ some c')
        × (length c'.entries ≤ c'.max_size)
        × (c'.max_size ≡ to_size_t cfg.max_entries)
  length-put fuel cfg req resp tidied stored c on plain room few v =
      let (c', run, _, same) = put_lem fuel cfg req resp tidied stored c on plain room few v in
      let kept =
        take (to_size_t cfg.max_entries - 1) (remove_key (make_key hash cfg req) c.entries) in
      let bound =
        length-take-le (to_size_t cfg.max_entries - 1)
          (remove_key (make_key hash cfg req) c.entries) in
      (
        c',
        run,
        omega (
          arith,
          ap (λ (x : Cache F). length x.entries) same,
          ap (λ (x : Cache F). x.max_size) same,
          length-without_expired tidied
              (record c { entries = kept; max_size = to_size_t cfg.max_entries }),
        ),
        ap (λ (x : Cache F). x.max_size) same,
      )

  -- With an enabled cache that may hold no entry at all, `put` of a request that is no stream does not
  -- end, whatever the fuel.
  pub put_diverges :
      (fuel : ℕ) (cfg : CacheConfig) (req : ChatRequest F) (resp : ChatResponse F)
      (tidied stored : ℕ) (c : Cache F)
      → cfg.enabled ≡ true
      → req.stream ≡ false
      → cfg.max_entries ≡ pos 0
      → put hash fuel cfg req resp tidied stored c ≡ none
  unfolding put to_size_t
  put_diverges fuel cfg req resp tidied stored c on plain zero_room =
      let start = drop_key (make_key hash cfg req) (configured cfg c) in
      ground (
        arith,
        make_room_zero fuel start,
        drop_key-max_size (make_key hash cfg req) (configured cfg c),
      )

  -- A response that was stored is the answer to every request with the same key, until its time to
  -- live has passed: marked as cached, with the new request's id and no latency.
  pub get-put :
      (fuel : ℕ) (cfg : CacheConfig) (req again : ChatRequest F) (resp : ChatResponse F)
      (tidied stored checked accessed : ℕ) (c : Cache F)
      → cfg.enabled ≡ true
      → req.stream ≡ false
      → 0 < to_size_t cfg.max_entries
      → length c.entries < fuel
      → IsValid c
      → make_key hash cfg again ≡ make_key hash cfg req
      → pos checked ≤ℤ pos stored +ℤ cfg.ttl_seconds *ℤ pos second
      → (c' c'' : Cache F) × (put hash fuel cfg req resp tidied stored c ≡ some c')
        × (get hash cfg again checked accessed c'
            ≡ some (
              c'',
              some (record resp {
                from_cache = true;
                request_id = again.request_id;
                latency_ms = of_int (pos 0);
              }),
            ))
  unfolding find_key is_expired
  get-put fuel cfg req again resp tidied stored checked accessed c on plain room few v k live =
      let (c', run, valid, same) = put_lem fuel cfg req resp tidied stored c on plain room few v in
      let key = make_key hash cfg again in
      let entry : CacheEntry F = record {
        node = c.next_node;
        key = make_key hash cfg req;
        response = resp;
        expires_at = pos stored +ℤ cfg.ttl_seconds *ℤ pos second;
        last_accessed = stored;
      } in
      let found : find_key key c'.entries ≡ some entry =
        ap (λ (x : Cache F). find_key key x.entries) same
        ∙ if_pos (text_dec entry.key key) (sym k) _ _ in
      let answered = read_by_key_hit key again checked accessed c' entry found (ground arith) in
      (
        c',
        (read_by_key true key again checked accessed c').0,
        run,
        get-read_by_key hash cfg again checked accessed c' valid
            ∙ ap (λ b. some (read_by_key b key again checked accessed c')) on
            ∙ ap (λ r. some ((read_by_key true key again checked accessed c').0, r)) answered,
      )
