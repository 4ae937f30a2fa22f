-- ===== src/Cache/Room.antt =====
-- The loop of `put` that makes room: what it leaves, when it ends, and when it does not.
use cost_optimized_llm_infer.Common.{
  ℕ, zero, suc, ◌-◌, ◌<◌, ◌≤◌, leb, List, [], ◌∷◌, none, some, ◌≡◌, refl, sym, ap, ◌∙◌, arith,
  length, Bool-cases, inl, inr, Option-cases, take,
}
use cost_optimized_llm_infer.Cache.{Cache, CacheEntry, pop_back, evict_lru, make_room, inc64}
use cost_optimized_llm_infer.Cache.Invariant.{
  inc64s, inc64s-inc64, IsValid, forget, evict_lru-IsValid,
}
use cost_optimized_llm_infer.Cache.Entries.{pop_back-none}

module _ {F : Type 0} where
  length-pop_back :
      (es rest : List (CacheEntry F)) (last : CacheEntry F)
      → pop_back es ≡ some (last, rest)
      → length es ≡ suc (length rest)
  unfolding pop_back
  length-pop_back [] rest last h = cc
  length-pop_back (x ∷ es) rest last h = elim (Option-cases (pop_back es)) [
    | inl e ↦ ground (arith, pop_back-none es)
    | inr (p, e) ↦ ground (arith, length-pop_back es p.1 p.0)
  ]

  -- The list behind `pop_back` is the list without its last entry.
  take-pop_back :
      (n : ℕ) (es rest : List (CacheEntry F)) (last : CacheEntry F)
      → pop_back es ≡ some (last, rest)
      → n ≤ length rest
      → take n es ≡ take n rest
  unfolding pop_back
  take-pop_back zero es rest last h k = refl
  take-pop_back (suc n) [] rest last h k = cc
  take-pop_back (suc n) (x ∷ es) rest last h k = elim (Option-cases (pop_back es)) [
    | inl e ↦ absurd (ground arith)
    | inr (p, e) ↦ ground (arith, take-pop_back n es p.1 p.0)
  ]

  pop_back-some :
      (es : List (CacheEntry F))
      → 0 < length es
      → (p : CacheEntry F × List (CacheEntry F)) × (pop_back es ≡ some p)
  unfolding pop_back
  pop_back-some [] h = absurd (omega arith)
  pop_back-some (x ∷ es) h = elim (Option-cases (pop_back es)) [
    | inl e ↦ ((x, []), rw (e, pop_back))
    | inr (p, e) ↦ ((p.0, x ∷ p.1), rw (e, pop_back))
  ]

  take_of_length-le : (n : ℕ) (es : List (CacheEntry F)) → length es ≤ n → take n es ≡ es
  take_of_length-le zero [] h = refl
  take_of_length-le zero (x ∷ es) h = absurd (omega arith)
  take_of_length-le (suc n) [] h = refl
  take_of_length-le (suc n) (x ∷ es) h = ap (◌∷◌ x) (take_of_length-le n es (omega arith))

  -- What the loop leaves: the most recent entries, one fewer than the cache may hold.
  abbrev pub with_room : Cache F → Cache F
  with_room c = record c {
    entries = take (c.max_size - 1) c.entries;
    evictions = inc64s (length c.entries - (c.max_size - 1)) c.evictions;
  }

  evict_lru-forget :
      (c : Cache F) (p : CacheEntry F × List (CacheEntry F))
      → pop_back c.entries ≡ some p
      → forget (evict_lru c) ≡ forget (record c { entries = p.1; evictions = inc64 c.evictions })
  unfolding evict_lru
  evict_lru-forget c p e = rw (e, evict_lru)

  -- One round of the loop does not change what it leaves.
  with_room-evict_lru :
      (c : Cache F)
      → 0 < c.max_size
      → c.max_size ≤ length c.entries
      → (length c.entries ≡ suc (length (evict_lru c).entries))
        × ((evict_lru c).max_size ≡ c.max_size)
        × (forget (with_room (evict_lru c)) ≡ forget (with_room c))
  with_room-evict_lru c pos full =
      let (p, e) = pop_back-some c.entries (omega arith) in
      let same = evict_lru-forget c p e in
      let shorter = length-pop_back c.entries p.1 p.0 e in
      let m = c.max_size - 1 in
      let more : length c.entries - m ≡ suc (length p.1 - m) = omega arith in
      (
        shorter ∙ ap (λ (x : Cache F). suc (length x.entries)) (sym same),
        ap (λ (x : Cache F). x.max_size) same,
        ap (λ (x : Cache F). forget (with_room x)) same
            ∙ rw (
              take-pop_back m c.entries p.1 p.0 e (omega arith),
              more,
              inc64s-inc64 (length p.1 - m) c.evictions,
            ),
      )

  -- With fuel beyond the number of entries the loop of a cache that may hold an entry ends.
  pub make_room_lem :
      (fuel : ℕ) (c : Cache F)
      → 0 < c.max_size
      → length c.entries < fuel
      → IsValid c
      → (c' : Cache F) × (make_room fuel c ≡ some c')
        × IsValid c'
        × (forget c' ≡ forget (with_room c))
  unfolding make_room
  make_room_lem zero c pos fits v = absurd (omega arith)
  make_room_lem (suc fuel) c pos fits v = elim (Bool-cases (leb c.max_size (length c.entries))) [
    | inl full ↦
        let (shorter, same_max, same) = with_room-evict_lru c pos (ground arith) in
        let (c', run, valid, left) =
          make_room_lem fuel (evict_lru c) (omega arith) (omega arith) (evict_lru-IsValid c v) in
        (c', rw full run, valid, left ∙ same)
    | inr room ↦
        let few : length c.entries ≤ c.max_size - 1 = ground arith in
        let none_out : length c.entries - (c.max_size - 1) ≡ 0 = omega arith in
        (c, rw room, v, rw (take_of_length-le (c.max_size - 1) c.entries few, none_out))
  ]

  evict_lru-max_size : (c : Cache F) → (evict_lru c).max_size ≡ c.max_size
  unfolding evict_lru
  evict_lru-max_size c = ground arith

  -- A cache that may hold no entry never gets out of the loop.
  pub make_room_zero : (fuel : ℕ) (c : Cache F) → c.max_size ≡ 0 → make_room fuel c ≡ none
  unfolding make_room
  make_room_zero zero c h = refl
  make_room_zero (suc fuel) c h =
      ground (arith, make_room_zero fuel (evict_lru c), evict_lru-max_size c)
