-- ===== src/Cache/Writes.antt =====
-- `Cache::put` against its description by keys, and the reads that follow a write.
use mathlib.Core.Option
use cost_optimized_llm_infer.Common.{
  ℕ, zero, suc, ◌+◌, ◌-◌, ◌/◌, ◌<◌, ◌≤◌, Bool, List, [], ◌∷◌, none, some, Text, ◌≡◌, refl, ap, ◌∙◌,
  arith, length, take, keep, Bool-cases, inl, inr, if◌then◌else◌, ltb, pos, ◌+ℤ◌, ◌*ℤ◌,
}
use cost_optimized_llm_infer.Types.{ChatResponse, second}
use cost_optimized_llm_infer.Cache.{
  Cache, CacheEntry, is_expired, drop_key, make_room, tidy, push_entry,
}
use cost_optimized_llm_infer.Cache.Invariant.{
  IsValid, forget, inc64s, drop_key-IsValid, drop_key-forget, drop_key_absent, push_entry-IsValid,
}
use cost_optimized_llm_infer.Cache.Expiry.{is_live, evict_expired-forget, evict_expired-IsValid}
use cost_optimized_llm_infer.Cache.Room.{with_room, make_room_lem}
use cost_optimized_llm_infer.Cache.Entries.{find_key, remove_key}

module _ {F : Type 0} where
  -- The four steps of a write by keys, on a cache without its index: the old entry goes, then the
  -- least recent ones until there is room (`with_room`), then the expired ones if the cache is more
  -- than half full, and the new entry comes to the front.
  abbrev pub without_key : Text → Cache F → Cache F
  without_key key c = record c { entries = remove_key key c.entries }

  abbrev pub without_expired : ℕ → Cache F → Cache F
  without_expired now c =
      let many = ltb (c.max_size / 2) (length c.entries) in
      record c {
        entries = if many then keep (is_live now) c.entries else c.entries;
        evictions =
            if many
            then inc64s (length (keep (is_expired now) c.entries)) c.evictions
            else c.evictions;
      }

  abbrev pub with_entry : Text → ChatResponse F → ℕ → Cache F → Cache F
  with_entry key resp now c = record c {
    entries =
        record {
          node = c.next_node;
          key = key;
          response = resp;
          expires_at = pos now +ℤ c.ttl_seconds *ℤ pos second;
          last_accessed = now;
        }
        ∷ c.entries;
    next_node = c.next_node + 1;
  }

  abbrev pub written : Text → ChatResponse F → (tidied stored : ℕ) → Cache F → Cache F
  written key resp tidied stored c =
      with_entry key resp stored (without_expired tidied (with_room (without_key key c)))

  tidy-IsValid : (now : ℕ) (c : Cache F) → IsValid c → IsValid (tidy now c)
  unfolding tidy
  tidy-IsValid now c v = elim (Bool-cases (ltb (c.max_size / 2) (length c.entries))) [
    | inl many ↦ rw many (evict_expired-IsValid now c v)
    | inr few ↦ rw few v
  ]

  tidy-forget : (now : ℕ) (c : Cache F) → forget (tidy now c) ≡ forget (without_expired now c)
  unfolding tidy
  tidy-forget now c = elim (Bool-cases (ltb (c.max_size / 2) (length c.entries))) [
    | inl many ↦ rw many (evict_expired-forget now c)
    | inr few ↦ rw few
  ]

  length-remove_key-le :
      (k : Text) (es : List (CacheEntry F)) → length (remove_key k es) ≤ length es
  unfolding remove_key
  length-remove_key-le k [] = omega arith
  length-remove_key-le k (e ∷ es) = ground (arith, length-remove_key-le k es)

  find_key-take-none :
      (k : Text) (n : ℕ) (es : List (CacheEntry F))
      → find_key k es ≡ none
      → find_key k (take n es) ≡ none
  unfolding find_key
  find_key-take-none k zero es h = refl
  find_key-take-none k (suc n) [] h = refl
  find_key-take-none k (suc n) (e ∷ es) h = ground (arith, find_key-take-none k n es)

  find_key-keep-none :
      (k : Text) (p : CacheEntry F → Bool) (es : List (CacheEntry F))
      → find_key k es ≡ none
      → find_key k (keep p es) ≡ none
  unfolding find_key
  find_key-keep-none k p [] h = refl
  find_key-keep-none k p (e ∷ es) h = ground (arith, find_key-keep-none k p es)

  find_key-without_expired :
      (k : Text) (now : ℕ) (c : Cache F)
      → find_key k c.entries ≡ none
      → find_key k (without_expired now c).entries ≡ none
  find_key-without_expired k now c h = elim (Bool-cases (ltb (c.max_size / 2) (length c.entries))) [
    | inl many ↦ rw many (find_key-keep-none k (is_live now) c.entries h)
    | inr few ↦ rw few h
  ]

  -- The body of `put` for a request that is to be stored.
  pub store_lem :
      (fuel : ℕ) (key : Text) (resp : ChatResponse F) (tidied stored : ℕ) (c : Cache F)
      → 0 < c.max_size
      → length c.entries < fuel
      → IsValid c
      → (c' : Cache F) × (Option.map
            (λ x. push_entry key resp stored (tidy tidied x))
            (make_room fuel (drop_key key c))
          ≡ some c')
        × IsValid c'
        × (forget c' ≡ forget (written key resp tidied stored c))
  unfolding push_entry
  store_lem fuel key resp tidied stored c room fits v =
      let dropped = drop_key key c in
      let same_drop = drop_key-forget key c v in
      let few : length dropped.entries < fuel = omega (
        arith,
        ap (λ (x : Cache F). length x.entries) same_drop,
        length-remove_key-le key c.entries,
      ) in
      let (roomy, run, valid, same_room) =
        make_room_lem fuel dropped (rw (ap (λ (x : Cache F). x.max_size) same_drop) room) few
          (drop_key-IsValid key c v) in
      let tidy_now = tidy tidied roomy in
      let same_tidy = tidy-forget tidied roomy in
      let absent : find_key key tidy_now.entries ≡ none =
        ap (λ (x : Cache F). find_key key x.entries) same_tidy
        ∙ find_key-without_expired key tidied roomy (
            ap (λ (x : Cache F). find_key key x.entries) same_room
            ∙ find_key-take-none key (dropped.max_size - 1) dropped.entries
                (drop_key_absent key c v)) in
      (
        push_entry key resp stored tidy_now,
        rw run,
        push_entry-IsValid key resp stored tidy_now (tidy-IsValid tidied roomy valid) absent,
        ap (λ (x : Cache F). forget (with_entry key resp stored x)) same_tidy
            ∙ ap (λ (x : Cache F). forget (with_entry key resp stored (without_expired tidied x)))
                same_room
            ∙ ap
                (λ (x : Cache F).
                  forget (with_entry key resp stored (without_expired tidied (with_room x))))
                same_drop,
      )
