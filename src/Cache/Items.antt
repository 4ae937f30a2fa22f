-- ===== src/Cache/Items.antt =====
-- The items of a cache: what a caller can see of its entries.
use mathlib.Core.Option
use mathlib.Core.Option.{some-injective}
use cost_optimized_llm_infer.Common.{
  ℕ, suc, ◌-◌, ◌/◌, zero, Bool, List, [], ◌∷◌, Text, ◌≡◌, refl, ap, ◌∙◌, map, take, keep, length,
  ltb, Bool-cases, inl, inr, arith, if◌then◌else◌, true, false,
}
use cost_optimized_llm_infer.Types.{ChatResponse}
use cost_optimized_llm_infer.Cache.{Cache, CacheEntry, is_expired}
use cost_optimized_llm_infer.Cache.Expiry.{is_live}
use cost_optimized_llm_infer.Cache.Entries.{find_key, remove_key}
use cost_optimized_llm_infer.Cache.Room.{with_room}
use cost_optimized_llm_infer.Cache.Writes.{without_expired, without_key}
use cost_optimized_llm_infer.Cache.Recent.{Item, find_item, remove_item, is_current, others_kept}

-- A test of a switch and of its exception, where the switch is on and the exception off.
pub if_stored :
    {A : Type 0} (on plain : Bool) (x y : A)
    → on ≡ true
    → plain ≡ false
    → y ≡ (if on then if plain then x else y else x)
if_stored on plain x y p q = ground arith

module _ {F : Type 0} where
  -- What a caller can see of an entry.
  abbrev pub item_of : CacheEntry F → Item F
  item_of e = record { key = e.key; response = e.response; deadline = e.expires_at }

  abbrev pub items : Cache F → List (Item F)
  items c = map item_of c.entries

  pub find_item-map :
      (k : Text) (es : List (CacheEntry F))
      → find_item k (map item_of es) ≡ Option.map item_of (find_key k es)
  unfolding find_item find_key
  find_item-map k [] = refl
  find_item-map k (e ∷ es) = ground (arith, find_item-map k es)

  pub map-remove_key :
      (k : Text) (es : List (CacheEntry F))
      → map item_of (remove_key k es) ≡ remove_item k (map item_of es)
  unfolding remove_item remove_key
  map-remove_key k [] = refl
  map-remove_key k (e ∷ es) = ground (arith, map-remove_key k es)

  map-take : (n : ℕ) (es : List (CacheEntry F)) → map item_of (take n es) ≡ take n (map item_of es)
  map-take zero es = refl
  map-take (suc n) [] = refl
  map-take (suc n) (e ∷ es) = ap (◌∷◌ (item_of e)) (map-take n es)

  map-keep :
      (now : ℕ) (es : List (CacheEntry F))
      → map item_of (keep (is_live now) es) ≡ keep (is_current now) (map item_of es)
  unfolding is_expired
  map-keep now [] = refl
  map-keep now (e ∷ es) = ground (arith, map-keep now es)

  length-map : (es : List (CacheEntry F)) → length (map item_of es) ≡ length es
  length-map [] = refl
  length-map (e ∷ es) = ap suc (length-map es)

  items-without_expired :
      (now : ℕ) (c : Cache F)
      → items (without_expired now c) ≡ (
          if ltb (c.max_size / 2) (length (items c))
          then keep (is_current now) (items c)
          else items c)
  items-without_expired now c = elim (Bool-cases (ltb (c.max_size / 2) (length c.entries))) [
    | inl many ↦ rw (length-map c.entries, many) (map-keep now c.entries)
    | inr few ↦ rw (length-map c.entries, few) refl
  ]

  pub items-written :
      (key : Text) (resp : ChatResponse F) (tidied stored : ℕ) (c : Cache F)
      → map item_of (without_expired tidied (with_room (without_key key c))).entries
        ≡ others_kept c.max_size key tidied (items c)
  unfolding others_kept
  items-written key resp tidied stored c =
      items-without_expired tidied (with_room (without_key key c))
      ∙ ap (λ ys. if ltb (c.max_size / 2) (length ys) then keep (is_current tidied) ys else ys)
          (map-take (c.max_size - 1) (remove_key key c.entries)
            ∙ ap (take (c.max_size - 1)) (map-remove_key key c.entries))
