-- ===== src/Cache/Invariant.antt =====
-- The agreement of the index and the list of the cache, and the operations that change them.
use cost_optimized_llm_infer.Common.{
  ℕ, zero, suc, ◌+◌, ◌<◌, List, [], ◌∷◌, Option, none, some, Text, text_dec, ◌≡◌, refl, ap, if_pos,
  ◌∙◌, All, All-map_of, arith, inl, inr, Option-cases, Dict, lookup, insert, erase, lookup-insert,
  lookup-erase,
}
use cost_optimized_llm_infer.Types.{ChatResponse}
use cost_optimized_llm_infer.Cache.{
  Cache, CacheEntry, find_node, pop_back, evict_lru, drop_key, inc64, push_entry,
}
use cost_optimized_llm_infer.Cache.Entries.{
  find_key, remove_key, Distinct, remove_node-find_key, find_key-remove_key, key-find_key,
  find_node-remove_key_self, find_key-All, remove_key_absent, remove_key-Distinct, remove_key-All,
  pop_back-remove_key,
}

abbrev pub node_of : {F : Type 0} → Option (CacheEntry F) → Option ℕ
node_of none = none
node_of (some e) = some e.node

-- A counter after so many increments.
abbrev pub inc64s : ℕ → ℕ → ℕ
inc64s zero n = n
inc64s (suc k) n = inc64 (inc64s k n)

pub inc64s-inc64 : (k n : ℕ) → inc64s k (inc64 n) ≡ inc64 (inc64s k n)
inc64s-inc64 zero n = refl
inc64s-inc64 (suc k) n = ap inc64 (inc64s-inc64 k n)

-- The index maps a key to the node of the entry under that key and nothing else; keys and nodes
-- are distinct, and new nodes are fresh.
pub record IsLinked {F : Type 0} (index : Dict ℕ) (entries : List (CacheEntry F)) (next : ℕ)
    : Type 0 where
  pub indexed : (k : Text) → lookup k index ≡ node_of (find_key k entries)
  pub distinct : Distinct entries
  pub fresh : All (λ e. e.node < next) entries

abbrev pub IsValid : {F : Type 0} → Cache F → Type 0
IsValid c = IsLinked c.index c.entries c.next_node

module _ {F : Type 0} where
  -- An empty cache.
  pub IsLinked-nil : (next : ℕ) → IsLinked {F = F} [] [] next
  unfolding lookup find_key
  IsLinked-nil next = record { indexed = λ k. refl; distinct = tt; fresh = tt }

  pub IsLinked-remove :
      (k : Text) {index : Dict ℕ} {entries : List (CacheEntry F)} {next : ℕ}
      → IsLinked index entries next
      → IsLinked (erase k index) (remove_key k entries) next
  IsLinked-remove k {index} {entries} {next} v = record {
    indexed = λ j.
        ground
          (arith, lookup-erase j k index, find_key-remove_key j k entries v.distinct, v.indexed j);
    distinct = remove_key-Distinct k entries v.distinct;
    fresh = remove_key-All (λ e. e.node < next) k entries v.fresh;
  }

  -- Moving an entry to the front, with a new time of access.
  pub IsLinked-front :
      (k : Text) (e : CacheEntry F) (accessed : ℕ) {index : Dict ℕ} {entries : List (CacheEntry F)}
      {next : ℕ}
      → IsLinked index entries next
      → find_key k entries ≡ some e
      → IsLinked index (record e { last_accessed = accessed } ∷ remove_key k entries) next
  unfolding find_key
  IsLinked-front k e accessed {index} {entries} {next} v found =
      let w = IsLinked-remove k v in
      let same = key-find_key k entries e found in
      record {
        indexed = λ j. ground (arith, w.indexed j, v.indexed j, lookup-erase j k index);
        distinct = (
          ground (arith, find_key-remove_key e.key k entries v.distinct),
          find_node-remove_key_self k entries e v.distinct found,
          w.distinct,
        );
        fresh = (find_key-All (λ x. x.node < next) k entries e v.fresh found, w.fresh);
      }

  find_node-fresh :
      (es : List (CacheEntry F)) (next : ℕ) → All (λ e. e.node < next) es → find_node next es ≡ none
  unfolding find_node
  find_node-fresh [] next h = refl
  find_node-fresh (e ∷ es) next h = ground (arith, find_node-fresh es next h.1)

  IsLinked-cons :
      (e : CacheEntry F) {index : Dict ℕ} {entries : List (CacheEntry F)}
      → IsLinked index entries e.node
      → find_key e.key entries ≡ none
      → IsLinked (insert e.key e.node index) (e ∷ entries) (e.node + 1)
  unfolding find_key
  IsLinked-cons e {index} {entries} v absent = record {
    indexed = λ j. ground (arith, lookup-insert j e.key e.node index, v.indexed j);
    distinct = (absent, find_node-fresh entries e.node v.fresh, v.distinct);
    fresh = (
      omega arith,
      All-map_of (λ x. x.node < e.node) (λ x. x.node < e.node + 1) entries (λ x h. omega arith)
          v.fresh,
    );
  }

  -- The cache without its index.
  abbrev pub forget : Cache F → Cache F
  forget c = record c { index = [] }

  pub drop_key-IsValid : (k : Text) (c : Cache F) → IsValid c → IsValid (drop_key k c)
  unfolding drop_key
  drop_key-IsValid k c v = elim (Option-cases (find_key k c.entries)) [
    | inl e ↦ rw (v.indexed k ∙ ap node_of e, drop_key) v
    | inr (x, e) ↦
        rw (v.indexed k ∙ ap node_of e, remove_node-find_key k c.entries x v.distinct e, drop_key)
          (IsLinked-remove k v)
  ]

  pub drop_key-forget :
      (k : Text) (c : Cache F)
      → IsValid c
      → forget (drop_key k c) ≡ forget (record c { entries = remove_key k c.entries })
  unfolding drop_key
  drop_key-forget k c v = elim (Option-cases (find_key k c.entries)) [
    | inl e ↦ rw (v.indexed k ∙ ap node_of e, remove_key_absent k c.entries e, drop_key)
    | inr (x, e) ↦
        rw (v.indexed k ∙ ap node_of e, remove_node-find_key k c.entries x v.distinct e, drop_key)
  ]

  pub drop_key_absent :
      (k : Text) (c : Cache F) → IsValid c → find_key k (drop_key k c).entries ≡ none
  drop_key_absent k c v =
      ap (λ (x : Cache F). find_key k x.entries) (drop_key-forget k c v)
      ∙ find_key-remove_key k k c.entries v.distinct
      ∙ if_pos (text_dec k k) refl none (find_key k c.entries)

  -- `evict_lru` on a cache that is not empty takes the entry at the back.
  pub evict_lru-IsValid : (c : Cache F) → IsValid c → IsValid (evict_lru c)
  unfolding evict_lru
  evict_lru-IsValid c v = elim (Option-cases (pop_back c.entries)) [
    | inl e ↦ rw (e, evict_lru) v
    | inr ((last, rest), e) ↦
        let (same, _) = pop_back-remove_key c.entries rest last v.distinct e in
        rw (e, same, evict_lru) (IsLinked-remove last.key v)
  ]

  pub push_entry-IsValid :
      (key : Text) (resp : ChatResponse F) (now : ℕ) (c : Cache F)
      → IsValid c
      → find_key key c.entries ≡ none
      → IsValid (push_entry key resp now c)
  unfolding push_entry
  push_entry-IsValid key resp now c v absent = IsLinked-cons _ v absent
