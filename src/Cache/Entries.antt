-- ===== src/Cache/Entries.antt =====
-- The list of cache entries read by key, and what the walks of the cache do to it. These are the
-- notions by which the operations are specified; the cache itself goes through nodes.
use mathlib.Core.Path.{subst}
use cost_optimized_llm_infer.Common.{
  ℕ, suc, length, List, [], ◌∷◌, Option, none, some, ite, Text, text_dec, ◌≡◌, refl, All, arith,
  inl, inr, Option-cases,
}
use cost_optimized_llm_infer.Cache.{CacheEntry, find_node, remove_node, pop_back}

module _ {F : Type 0} where
  -- The first entry with a key, and the list without it.
  unfoldable pub find_key : Text → List (CacheEntry F) → Option (CacheEntry F)
  find_key k [] = none
  find_key k (e ∷ es) = ite (text_dec e.key k) (some e) (find_key k es)

  unfoldable pub remove_key : Text → List (CacheEntry F) → List (CacheEntry F)
  remove_key k [] = []
  remove_key k (e ∷ es) = ite (text_dec e.key k) es (e ∷ remove_key k es)

  -- No two entries share a key or a node.
  abbrev pub Distinct : List (CacheEntry F) → Type 0
  Distinct [] = Unit
  Distinct (e ∷ es) = (find_key e.key es ≡ none) × (find_node e.node es ≡ none) × Distinct es

  pub key-find_key :
      (k : Text) (es : List (CacheEntry F)) (e : CacheEntry F) → find_key k es ≡ some e → e.key ≡ k
  unfolding find_key
  key-find_key k [] e h = cc
  key-find_key k (x ∷ es) e h = ground (arith, key-find_key k es e)

  node-find_node :
      (n : ℕ) (es : List (CacheEntry F)) (e : CacheEntry F) → find_node n es ≡ some e → e.node ≡ n
  unfolding find_node
  node-find_node n [] e h = cc
  node-find_node n (x ∷ es) e h = ground (arith, node-find_node n es e)

  -- The node of the entry under a key leads back to that entry.
  pub find_node-find_key :
      (k : Text) (es : List (CacheEntry F)) (e : CacheEntry F)
      → Distinct es
      → find_key k es ≡ some e
      → find_node e.node es ≡ some e
  unfolding find_key find_node
  find_node-find_key k [] e d h = cc
  find_node-find_key k (x ∷ es) e d h = ground (arith, find_node-find_key k es e)

  pub remove_node-find_key :
      (k : Text) (es : List (CacheEntry F)) (e : CacheEntry F)
      → Distinct es
      → find_key k es ≡ some e
      → remove_node e.node es ≡ remove_key k es
  unfolding find_key find_node remove_node remove_key
  remove_node-find_key k [] e d h = cc
  remove_node-find_key k (x ∷ es) e d h =
      ground (arith, remove_node-find_key k es e, find_node-find_key k es e)

  pub find_key-remove_key :
      (j k : Text) (es : List (CacheEntry F))
      → Distinct es
      → find_key j (remove_key k es) ≡ ite (text_dec k j) none (find_key j es)
  unfolding find_key remove_key
  find_key-remove_key j k [] d = ground arith
  find_key-remove_key j k (x ∷ es) d = ground (arith, find_key-remove_key j k es d.2)

  pub remove_key_absent :
      (k : Text) (es : List (CacheEntry F)) → find_key k es ≡ none → remove_key k es ≡ es
  unfolding find_key remove_key
  remove_key_absent k [] h = refl
  remove_key_absent k (x ∷ es) h = ground (arith, remove_key_absent k es)

  find_node-remove_key :
      (n : ℕ) (k : Text) (es : List (CacheEntry F))
      → find_node n es ≡ none
      → find_node n (remove_key k es) ≡ none
  unfolding find_node remove_key
  find_node-remove_key n k [] h = refl
  find_node-remove_key n k (x ∷ es) h = ground (arith, find_node-remove_key n k es)

  pub remove_key-Distinct :
      (k : Text) (es : List (CacheEntry F)) → Distinct es → Distinct (remove_key k es)
  unfolding remove_key
  remove_key-Distinct k [] d = tt
  remove_key-Distinct k (x ∷ es) d = ground (
    arith,
    remove_key-Distinct k es,
    find_node-remove_key x.node k es,
    find_key-remove_key x.key k es,
  )

  pub remove_key-All :
      (P : CacheEntry F → Type 0) (k : Text) (es : List (CacheEntry F))
      → All P es
      → All P (remove_key k es)
  unfolding remove_key
  remove_key-All P k [] h = tt
  remove_key-All P k (x ∷ es) h = ground (arith, remove_key-All P k es)

  pub pop_back-none : (es : List (CacheEntry F)) → pop_back es ≡ none → es ≡ []
  unfolding pop_back
  pop_back-none [] h = refl
  pop_back-none (x ∷ es) h = elim (Option-cases (pop_back es)) [
    | inl e ↦ absurd (ground arith)
    | inr (p, e) ↦ absurd (ground arith)
  ]

  -- The entry at the back is the one under its key.
  pub pop_back-remove_key :
      (es rest : List (CacheEntry F)) (last : CacheEntry F)
      → Distinct es
      → pop_back es ≡ some (last, rest)
      → (rest ≡ remove_key last.key es) × (find_key last.key es ≡ some last)
  unfolding pop_back remove_key find_key
  pop_back-remove_key [] rest last d h = cc
  pop_back-remove_key (x ∷ es) rest last d h = elim (Option-cases (pop_back es)) [
    | inl e ↦ ground (arith, pop_back-none es)
    | inr (p, e) ↦ ground (arith, pop_back-remove_key es p.1 p.0)
  ]

  pub find_node-remove_key_self :
      (k : Text) (es : List (CacheEntry F)) (e : CacheEntry F)
      → Distinct es
      → find_key k es ≡ some e
      → find_node e.node (remove_key k es) ≡ none
  unfolding find_key find_node remove_key
  find_node-remove_key_self k [] e d h = cc
  find_node-remove_key_self k (x ∷ es) e d h =
      ground (arith, find_node-remove_key_self k es e, find_node-find_key k es e)

  pub find_key-All :
      (P : CacheEntry F → Type 0) (k : Text) (es : List (CacheEntry F)) (e : CacheEntry F)
      → All P es
      → find_key k es ≡ some e
      → P e
  unfolding find_key
  find_key-All P k [] e a h = absurd (ground arith)
  find_key-All P k (x ∷ es) e a h = elim (text_dec x.key k) [
    | yes p ↦ let same : x ≡ e = ground arith in subst P same a.0
    | no p ↦ find_key-All P k es e a.1 (ground arith)
  ]

  -- Taking a key out of the list takes one entry, if there is one.
  pub length-remove_key :
      (k : Text) (es : List (CacheEntry F)) (e : CacheEntry F)
      → find_key k es ≡ some e
      → suc (length (remove_key k es)) ≡ length es
  unfolding find_key remove_key
  length-remove_key k [] e h = cc
  length-remove_key k (x ∷ es) e h = ground (arith, length-remove_key k es e)
