-- ===== src/Cache/Places.antt =====
-- Where an item stands in a list of recent items, and what moves it back.
use cost_optimized_llm_infer.Common.{
  ℕ, zero, suc, ◌-◌, ◌/◌, ◌<◌, ◌≤◌, true, List, [], ◌∷◌, some, Text, text_dec, ◌≡◌, ◌≢◌, ap, take,
  keep, length, ltb, Bool-cases, inl, inr, arith,
}
use cost_optimized_llm_infer.Cache.Recent.{Item, find_item, remove_item, is_current, others_kept}

module _ {F : Type 0} where
  pub key-find_item :
      (k : Text) (xs : List (Item F)) (x : Item F) → find_item k xs ≡ some x → x.key ≡ k
  unfolding find_item
  key-find_item k [] x h = cc
  key-find_item k (y ∷ ys) x h = ground (arith, key-find_item k ys x)

  pub find_item_front :
      (k : Text) (y x : Item F) (ys : List (Item F))
      → y ≡ x
      → x.key ≡ k
      → find_item k (y ∷ ys) ≡ some x
  unfolding find_item
  find_item_front k y x ys same here = ground arith

  pub find_item_behind :
      (k : Text) (y x : Item F) (ys : List (Item F))
      → y.key ≢ k
      → find_item k ys ≡ some x
      → find_item k (y ∷ ys) ≡ some x
  unfolding find_item
  find_item_behind k y x ys other h = ground arith

  pub find_item-take_le :
      (k : Text) (n m : ℕ) (xs : List (Item F)) (x : Item F)
      → n ≤ m
      → find_item k (take n xs) ≡ some x
      → find_item k (take m xs) ≡ some x
  unfolding find_item
  find_item-take_le k zero m xs x le h = cc
  find_item-take_le k (suc n) zero xs x le h = absurd (omega arith)
  find_item-take_le k (suc n) (suc m) [] x le h = cc
  find_item-take_le k (suc n) (suc m) (y ∷ ys) x le h = ground (arith, find_item-take_le k n m ys x)

  pub find_item-take_all :
      (k : Text) (n : ℕ) (xs : List (Item F)) (x : Item F)
      → find_item k (take n xs) ≡ some x
      → find_item k xs ≡ some x
  unfolding find_item
  find_item-take_all k zero xs x h = cc
  find_item-take_all k (suc n) [] x h = cc
  find_item-take_all k (suc n) (y ∷ ys) x h = ground (arith, find_item-take_all k n ys x)

  -- Taking another key out, the expired items, or those beyond a limit, moves no item back.
  pub find_item-remove_item :
      (k j : Text) (n : ℕ) (xs : List (Item F)) (x : Item F)
      → j ≢ k
      → find_item k (take n xs) ≡ some x
      → find_item k (take n (remove_item j xs)) ≡ some x
  unfolding find_item remove_item
  find_item-remove_item k j zero xs x ne h = cc
  find_item-remove_item k j (suc n) [] x ne h = cc
  find_item-remove_item k j (suc n) (y ∷ ys) x ne h =
      ground (arith, find_item-remove_item k j n ys x ne, find_item-take_le k n (suc n) ys x)

  find_item-keep :
      (k : Text) (now n : ℕ) (xs : List (Item F)) (x : Item F)
      → is_current now x ≡ true
      → find_item k (take n xs) ≡ some x
      → find_item k (take n (keep (is_current now) xs)) ≡ some x
  unfolding find_item
  find_item-keep k now zero xs x live h = cc
  find_item-keep k now (suc n) [] x live h = cc
  find_item-keep k now (suc n) (y ∷ ys) x live h = elim (Bool-cases (is_current now y)) [
    | inl here ↦ rw here (ground (arith, find_item-keep k now n ys x live))
    | inr over ↦ rw over (elim (text_dec y.key k) [
      | yes p ↦
          let same : y ≡ x = ground arith in absurd (cc (over, live, ap (is_current now) same))
      | no p ↦
          find_item-take_le k n (suc n) _ x (omega arith)
            (find_item-keep k now n ys x live (ground arith))
    ])
  ]

  find_item-take :
      (k : Text) (n m : ℕ) (xs : List (Item F)) (x : Item F)
      → n ≤ m
      → find_item k (take n xs) ≡ some x
      → find_item k (take n (take m xs)) ≡ some x
  unfolding find_item
  find_item-take k zero m xs x le h = cc
  find_item-take k (suc n) zero xs x le h = absurd (omega arith)
  find_item-take k (suc n) (suc m) [] x le h = cc
  find_item-take k (suc n) (suc m) (y ∷ ys) x le h = ground (arith, find_item-take k n m ys x)

  pub find_item-others_kept :
      (k j : Text) (limit tidied n : ℕ) (xs : List (Item F)) (x : Item F)
      → j ≢ k
      → n < limit
      → is_current tidied x ≡ true
      → find_item k (take n xs) ≡ some x
      → find_item k (take n (others_kept limit j tidied xs)) ≡ some x
  unfolding others_kept
  find_item-others_kept k j limit tidied n xs x ne lt live h =
      let ys = take (limit - 1) (remove_item j xs) in
      let roomy : find_item k (take n ys) ≡ some x =
        find_item-take k n (limit - 1) (remove_item j xs) x (omega arith)
          (find_item-remove_item k j n xs x ne h) in
      elim (Bool-cases (ltb (limit / 2) (length ys))) [
        | inl many ↦ rw many (find_item-keep k tidied n ys x live roomy)
        | inr few ↦ rw few roomy
      ]
