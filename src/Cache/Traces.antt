-- ===== src/Cache/Traces.antt =====
-- Sequences of calls of the cache, against the list of recent items.
use mathlib.Core.Option.{some-injective}
use cost_optimized_llm_infer.Common.{
  ℕ, ◌<◌, Bool, List, [], ◌∷◌, Option, none, some, Text, ◌≡◌, refl, ap, ◌∙◌, length, Bool-cases,
  Option-cases, inl, inr, arith, ◌>>=◌, Double, true, false, sym,
}
use cost_optimized_llm_infer.Types.{ChatRequest, ChatResponse}
use cost_optimized_llm_infer.Cache.{
  Cache, CacheConfig, get, put, clear, make_key, to_size_t, is_expired,
}
use cost_optimized_llm_infer.Cache.Invariant.{IsValid, IsLinked-nil}
use cost_optimized_llm_infer.Cache.Entries.{find_key}
use cost_optimized_llm_infer.Cache.Reads.{
  answer, read_by_key, read_by_key-IsValid, get-read_by_key, length-read_by_key,
}
use cost_optimized_llm_infer.Cache.Store.{put_lem, length-put, configured}
use cost_optimized_llm_infer.Cache.Recent.{
  Access, looked, wrote, emptied, others_kept, read_item, stored_item, recent_step, recent_run,
}
use cost_optimized_llm_infer.Cache.Items.{
  if_stored, item_of, items, find_item-map, map-remove_key, items-written,
}

module _ {F : Type 0} ⦃d : Double F⦄ where
  pub items-read_by_key :
      (on : Bool) (key : Text) (req : ChatRequest F) (checked accessed : ℕ) (c : Cache F)
      → let (c', r) = read_by_key on key req checked accessed c in
        (items c', r) ≡ read_item on key req checked (items c)
  unfolding read_by_key read_item is_expired
  items-read_by_key false key req checked accessed c = refl
  items-read_by_key true key req checked accessed c =
      let found = find_item-map key c.entries in
      let rest = map-remove_key key c.entries in
      elim (Option-cases (find_key key c.entries)) [
        | inl e ↦ rw (found, e, read_by_key, read_item) refl
        | inr (x, e) ↦ elim (Bool-cases (is_expired checked x)) [
          | inl old ↦ rw (found, e, old, read_by_key, read_item) (ap (λ xs. (xs, none)) rest)
          | inr live ↦
              rw (found, e, live, read_by_key, read_item)
                (ap (λ xs. (item_of x ∷ xs, some (answer req x))) rest)
        ]
      ]

  module _ (hash : Text → ℕ) (fuel : ℕ) (cfg : CacheConfig) where
    -- One call of the cache; only a read has an answer.
    unfoldable pub access : Access F → Cache F → Option (Cache F × Option (ChatResponse F))
    access (looked req checked accessed) c = get hash cfg req checked accessed c
    access (wrote req resp tidied now) c = do
      c' ← put hash fuel cfg req resp tidied now c
      some (c', none)
    access emptied c = some (clear c, none)

    unfoldable pub accesses :
        List (Access F) → Cache F → Option (Cache F × List (Option (ChatResponse F)))
    accesses [] c = some (c, [])
    accesses (a ∷ rest) c = do
      out ← access a c
      later ← accesses rest out.0
      some (later.0, out.1 ∷ later.1)

    pub items-put :
        (req : ChatRequest F) (resp : ChatResponse F) (tidied now : ℕ) (c : Cache F)
        → cfg.enabled ≡ true
        → req.stream ≡ false
        → 0 < to_size_t cfg.max_entries
        → to_size_t cfg.max_entries < fuel
        → length c.entries < fuel
        → IsValid c
        → (c' : Cache F) × (put hash fuel cfg req resp tidied now c ≡ some c')
          × (items c'
              ≡ stored_item hash cfg req resp now
                ∷ others_kept (to_size_t cfg.max_entries) (make_key hash cfg req) tidied (items c))
          × (length c'.entries < fuel)
          × IsValid c'
    items-put req resp tidied now c on plain room most few v =
        let (c', run, valid, same) =
          put_lem hash fuel cfg req resp tidied now c on plain room few v in
        let (c'', run', small, limit) =
          length-put hash fuel cfg req resp tidied now c on plain room few v in
        let short =
          ap (λ (x : Cache F). length x.entries) (some-injective c' c'' (sym run ∙ run')) in
        (
          c',
          run,
          ap items same
              ∙ ap (◌∷◌ (stored_item hash cfg req resp now))
                  (items-written (make_key hash cfg req) resp tidied now (configured cfg c)),
          omega arith,
          valid,
        )

    -- Within the fuel a call ends, keeps the cache well formed, and does to its items what the
    -- description does.
    access-recent_step :
        (a : Access F) (c : Cache F)
        → 0 < to_size_t cfg.max_entries
        → to_size_t cfg.max_entries < fuel
        → length c.entries < fuel
        → IsValid c
        → (c' : Cache F) × (r : Option (ChatResponse F)) × (access a c ≡ some (c', r))
          × ((items c', r) ≡ recent_step hash cfg a (items c))
          × (length c'.entries < fuel)
          × IsValid c'
    unfolding access recent_step put clear
    access-recent_step (looked req checked accessed) c room most few v =
        let key = make_key hash cfg req in
        (
          _,
          _,
          get-read_by_key hash cfg req checked accessed c v,
          items-read_by_key cfg.enabled key req checked accessed c,
          omega (arith, length-read_by_key cfg.enabled key req checked accessed c),
          read_by_key-IsValid cfg.enabled key req checked accessed c v,
        )
    access-recent_step (wrote req resp tidied now) c room most few v =
        elim (Bool-cases cfg.enabled) [
          | inl on ↦ elim (Bool-cases req.stream) [
            | inl streamed ↦ (c, none, ground arith, ground arith, few, v)
            | inr plain ↦
                let (c', run, left, short, valid) =
                  items-put req resp tidied now c on plain room most few v in
                (
                  c',
                  none,
                  rw run refl,
                  ap (λ xs. (xs, none)) left ∙ if_stored cfg.enabled req.stream _ _ on plain,
                  short,
                  valid,
                )
          ]
          | inr off ↦ (c, none, ground arith, ground arith, few, v)
        ]
    access-recent_step emptied c room most few v =
        (clear c, none, refl, refl, omega arith, IsLinked-nil c.next_node)

    -- The cache refines the list of recent items: on a well-formed cache that may hold an entry, and
    -- with fuel beyond its size and its limit, every sequence of reads, writes and clears ends, its
    -- answers are those of the list of recent items, and it leaves a well-formed cache with the
    -- items of that list.
    pub accesses-recent_run :
        (calls : List (Access F)) (c : Cache F)
        → 0 < to_size_t cfg.max_entries
        → to_size_t cfg.max_entries < fuel
        → length c.entries < fuel
        → IsValid c
        → (c' : Cache F) × (accesses calls c ≡ some (c', (recent_run hash cfg calls (items c)).1))
          × (items c' ≡ (recent_run hash cfg calls (items c)).0)
          × (length c'.entries < fuel)
          × IsValid c'
    unfolding accesses recent_run
    accesses-recent_run [] c room most few v = (c, refl, refl, few, v)
    accesses-recent_run (a ∷ rest) c room most few v =
        let (c', r, run, same, few', v') = access-recent_step a c room most few v in
        let (c'', later, same', few'', v'') = accesses-recent_run rest c' room most few' v' in
        (
          c'',
          rw run (
              ap (λ o. o >>= (λ x. some (x.0, r ∷ x.1))) later
              ∙ ap (λ p. some (c'', p.1 ∷ (recent_run hash cfg rest p.0).1)) same),
          same' ∙ ap (λ p. (recent_run hash cfg rest p.0).0) same,
          few'',
          v'',
        )
