-- ===== src/Cache/Expiry.antt =====
-- `evict_expired`: what is left, what is counted, and the invariant.
use cost_optimized_llm_infer.Common.{
  ℕ, ◌<◌, Bool, not, List, [], ◌∷◌, none, some, Text, ◌≡◌, refl, ap, All, keep, arith, length,
  Bool-cases, inl, inr, if◌then◌else◌, lookup, lookup-erase,
}
use cost_optimized_llm_infer.Cache.{
  Cache, CacheEntry, find_node, is_expired, expire_from_back, evict_expired, inc64,
}
use cost_optimized_llm_infer.Cache.Invariant.{inc64s, IsValid, forget}
use cost_optimized_llm_infer.Cache.Entries.{find_key, Distinct}

module _ {F : Type 0} where
  expire-lookup :
      (now : ℕ) (es : List (CacheEntry F)) (c : Cache F) (k : Text)
      → Distinct es
      → lookup k (expire_from_back now es c).index ≡ elim (find_key k es) [
        | none ↦ lookup k c.index
        | some e ↦ if is_expired now e then none else lookup k c.index
      ]
  unfolding expire_from_back find_key
  expire-lookup now [] c k d = refl
  expire-lookup now (e ∷ es) c k d =
      ground (
        arith,
        expire-lookup now es c k d.2,
        lookup-erase k e.key (expire_from_back now es c).index,
      )

  -- The entries that `evict_expired` leaves.
  abbrev pub is_live : ℕ → CacheEntry F → Bool
  is_live now e = not (is_expired now e)

  expire-forget :
      (now : ℕ) (es : List (CacheEntry F)) (c : Cache F)
      → forget (expire_from_back now es c)
        ≡ forget (record c {
          entries = keep (is_live now) es;
          evictions = inc64s (length (keep (is_expired now) es)) c.evictions;
        })
  unfolding expire_from_back
  expire-forget now [] c = refl
  expire-forget now (e ∷ es) c = elim (Bool-cases (is_expired now e)) [
    | inl old ↦
        rw (old, expire_from_back)
          (ap (λ (x : Cache F). record x { evictions = inc64 x.evictions })
            (expire-forget now es c))
    | inr live ↦
        rw (live, expire_from_back)
          (ap (λ (x : Cache F). record x { entries = e ∷ x.entries }) (expire-forget now es c))
  ]

  pub find_key-keep :
      (now : ℕ) (es : List (CacheEntry F)) (k : Text)
      → Distinct es
      → find_key k (keep (is_live now) es)
        ≡ elim (find_key k es) [ none ↦ none | some e ↦ if is_expired now e then none else some e ]
  unfolding find_key
  find_key-keep now [] k d = refl
  find_key-keep now (e ∷ es) k d = ground (arith, find_key-keep now es k d.2)

  find_node-keep :
      (p : CacheEntry F → Bool) (n : ℕ) (es : List (CacheEntry F))
      → find_node n es ≡ none
      → find_node n (keep p es) ≡ none
  unfolding find_node
  find_node-keep p n [] h = refl
  find_node-keep p n (e ∷ es) h = ground (arith, find_node-keep p n es)

  keep-Distinct :
      (now : ℕ) (es : List (CacheEntry F)) → Distinct es → Distinct (keep (is_live now) es)
  keep-Distinct now [] d = tt
  keep-Distinct now (e ∷ es) d = ground (
    arith,
    keep-Distinct now es,
    find_key-keep now es e.key d.2,
    find_node-keep (is_live now) e.node es,
  )

  keep-All :
      (P : CacheEntry F → Type 0) (p : CacheEntry F → Bool) (es : List (CacheEntry F))
      → All P es
      → All P (keep p es)
  keep-All P p [] h = tt
  keep-All P p (e ∷ es) h = ground (arith, keep-All P p es)

  -- `evict_expired` leaves the entries that have not expired, and counts the others.
  pub evict_expired-forget :
      (now : ℕ) (c : Cache F)
      → forget (evict_expired now c)
        ≡ forget (record c {
          entries = keep (is_live now) c.entries;
          evictions = inc64s (length (keep (is_expired now) c.entries)) c.evictions;
        })
  unfolding evict_expired
  evict_expired-forget now c = expire-forget now c.entries c

  pub evict_expired-IsValid : (now : ℕ) (c : Cache F) → IsValid c → IsValid (evict_expired now c)
  unfolding evict_expired
  evict_expired-IsValid now c v =
      let f = expire-forget now c.entries c in
      let es : (expire_from_back now c.entries c).entries ≡ keep (is_live now) c.entries =
        ap (λ (x : Cache F). x.entries) f in
      let next : (expire_from_back now c.entries c).next_node ≡ c.next_node =
        ap (λ (x : Cache F). x.next_node) f in
      rw (es, next)
        (record {
          indexed = λ k. ground (
            arith,
            expire-lookup now c.entries c k v.distinct,
            find_key-keep now c.entries k v.distinct,
            v.indexed k,
          );
          distinct = keep-Distinct now c.entries v.distinct;
          fresh = keep-All (λ e. e.node < c.next_node) (is_live now) c.entries v.fresh;
        })
