-- ===== src/Common/Sort.antt =====
-- `std::sort` by a comparison `before`. It is written as an insertion sort; elements that are
-- equivalent keep their order here, which `std::sort` leaves open.
use mathlib.Core.Bool.{Bool, true, false}
use mathlib.Core.List.{List, [], ◌∷◌}
use mathlib.Core.Logic.{inl, inr}
use mathlib.Core.Path.{◌≡◌, refl, ap, subst}
use mathlib.Core.Option.{some, some-injective}
use Prim.Native.Nat.{ℕ, zero, suc, ◌+◌, ◌≤◌}
use native.Mathlib.Omega.{arith}
use cost_optimized_llm_infer.Common.Lists.{All, length, keep, length-keep-le, get_elem?}
use cost_optimized_llm_infer.Common.Tests.{if◌then◌else◌, Bool-cases}

module _ {ℓ} {A : Type ℓ} (before : A → A → Bool) where
  unfoldable pub insert_sorted : A → List A → List A
  insert_sorted x [] = x ∷ []
  insert_sorted x (y ∷ ys) =
      let rest = insert_sorted x ys in if before y x then y ∷ rest else x ∷ y ∷ ys

  unfoldable pub sort : List A → List A
  unfolding insert_sorted
  sort [] = []
  sort (x ∷ xs) = insert_sorted x (sort xs)

  length-insert_sorted : (x : A) (ys : List A) → length (insert_sorted x ys) ≡ length (x ∷ ys)
  unfolding insert_sorted
  length-insert_sorted x [] = omega arith
  length-insert_sorted x (y ∷ ys) = ground (arith, length-insert_sorted x ys)

  pub length-sort : (xs : List A) → length (sort xs) ≡ length xs
  unfolding sort
  length-sort [] = omega arith
  length-sort (x ∷ xs) = omega (arith, length-insert_sorted x (sort xs), length-sort xs)

  module _ {κ} (P : A → Type κ) where
    insert_sorted-All : (x : A) (ys : List A) → P x → All P ys → All P (insert_sorted x ys)
    unfolding insert_sorted
    insert_sorted-All x [] p h = (p, tt)
    insert_sorted-All x (y ∷ ys) p h = ground (arith, insert_sorted-All x ys)

    pub sort-All : (xs : List A) → All P xs → All P (sort xs)
    unfolding sort
    sort-All [] h = tt
    sort-All (x ∷ xs) h = insert_sorted-All x (sort xs) h.0 (sort-All xs h.1)

    All-of_insert_sorted : (x : A) (ys : List A) → All P (insert_sorted x ys) → P x × All P ys
    unfolding insert_sorted
    All-of_insert_sorted x [] h = (h.0, tt)
    All-of_insert_sorted x (y ∷ ys) h = ground (arith, All-of_insert_sorted x ys)

    -- What holds of every element of a sorted list holds of every element of the list.
    pub All-of_sort : (xs : List A) → All P (sort xs) → All P xs
    unfolding sort
    All-of_sort [] h = tt
    All-of_sort (x ∷ xs) h =
        let (p, rest) = All-of_insert_sorted x (sort xs) h in (p, All-of_sort xs rest)

  -- No element comes before the first one of a list.
  abbrev pub IsLeast : A → List A → Type 0
  IsLeast m = All (λ z. before z m ≡ false)

  abbrev pub HasLeastHead : List A → Type 0
  HasLeastHead [] = Unit
  HasLeastHead (x ∷ xs) = IsLeast x xs

  -- The comparison as far as a list of elements is concerned: it is asymmetric, and not coming
  -- before is transitive.
  pub record IsWeakOrder {κ} (P : A → Type κ) : Type (ℓ ⊔ κ) where
    pub asym : (x y : A) → before x y ≡ true → before y x ≡ false
    pub not_before_trans :
        (x y z : A) → P y → before z y ≡ false → before y x ≡ false → before z x ≡ false

  module _ {κ} (P : A → Type κ) (o : IsWeakOrder P) where
    IsLeast-trans : (x y : A) (zs : List A) → P y → before y x ≡ false → IsLeast y zs → IsLeast x zs
    IsLeast-trans x y [] p h l = tt
    IsLeast-trans x y (z ∷ zs) p h l =
        (o.not_before_trans x y z p l.0 h, IsLeast-trans x y zs p h l.1)

    insert_sorted-IsLeast :
        (m x : A) (ys : List A) → before x m ≡ false → IsLeast m ys → IsLeast m (insert_sorted x ys)
    insert_sorted-IsLeast m x ys h l = insert_sorted-All (λ z. before z m ≡ false) x ys h l

    insert_sorted-HasLeastHead :
        (x : A) (ys : List A) → All P ys → HasLeastHead ys → HasLeastHead (insert_sorted x ys)
    unfolding insert_sorted
    insert_sorted-HasLeastHead x [] p h = tt
    insert_sorted-HasLeastHead x (y ∷ ys) p h = elim (Bool-cases (before y x)) [
      | inl first ↦ rw first (insert_sorted-IsLeast y x ys (o.asym y x first) h)
      | inr later ↦ rw later (later, IsLeast-trans x y ys p.0 later h)
    ]

    -- Nothing comes before the head of a sorted list.
    pub sort-HasLeastHead : (xs : List A) → All P xs → HasLeastHead (sort xs)
    unfolding sort
    sort-HasLeastHead [] p = tt
    sort-HasLeastHead (x ∷ xs) p =
        insert_sorted-HasLeastHead x (sort xs) (sort-All P xs p.1) (sort-HasLeastHead xs p.1)

  -- Sorting keeps the number of the elements with a property.
  module _ (p : A → Bool) where
    length-keep-insert_sorted :
        (x : A) (ys : List A) → length (keep p (insert_sorted x ys)) ≡ length (keep p (x ∷ ys))
    unfolding insert_sorted
    length-keep-insert_sorted x [] = refl
    length-keep-insert_sorted x (y ∷ ys) = ground (arith, length-keep-insert_sorted x ys)

    pub length-keep-sort : (xs : List A) → length (keep p (sort xs)) ≡ length (keep p xs)
    unfolding sort
    length-keep-sort [] = refl
    length-keep-sort (x ∷ xs) =
        ground (arith, length-keep-insert_sorted x (sort xs), length-keep-sort xs)

  -- Nothing comes before an element that stands earlier.
  abbrev pub IsSorted : List A → Type 0
  IsSorted [] = Unit
  IsSorted (x ∷ xs) = IsLeast x xs × IsSorted xs

  module _ {κ} (P : A → Type κ) (o : IsWeakOrder P) where
    insert_sorted-IsSorted :
        (x : A) (ys : List A) → All P ys → IsSorted ys → IsSorted (insert_sorted x ys)
    unfolding insert_sorted
    insert_sorted-IsSorted x [] p h = (tt, tt)
    insert_sorted-IsSorted x (y ∷ ys) p h = elim (Bool-cases (before y x)) [
      | inl first ↦ rw first (
        insert_sorted-IsLeast P o y x ys (o.asym y x first) h.0,
        insert_sorted-IsSorted x ys p.1 h.1,
      )
      | inr later ↦ rw later ((later, IsLeast-trans P o x y ys p.0 later h.0), h)
    ]

    pub sort-IsSorted : (xs : List A) → All P xs → IsSorted (sort xs)
    unfolding sort
    sort-IsSorted [] p = tt
    sort-IsSorted (x ∷ xs) p =
        insert_sorted-IsSorted x (sort xs) (sort-All P xs p.1) (sort-IsSorted xs p.1)

    irrefl : (x : A) → before x x ≡ false
    irrefl x = elim (Bool-cases (before x x)) [ inl e ↦ o.asym x x e | inr e ↦ e ]

  length-keep-none :
      (p : A → Bool) (xs : List A) → All (λ z. p z ≡ false) xs → length (keep p xs) ≡ 0
  length-keep-none p [] h = refl
  length-keep-none p (x ∷ xs) h = ground (arith, length-keep-none p xs)

  IsLeast-get_elem? :
      (m p : A) (xs : List A) (i : ℕ) → IsLeast m xs → get_elem? xs i ≡ some p → before p m ≡ false
  IsLeast-get_elem? m p [] i l h = absurd cc
  IsLeast-get_elem? m p (x ∷ xs) zero l h = cc (l.0, ap (λ y. before y m) (some-injective x p h))
  IsLeast-get_elem? m p (x ∷ xs) (suc i) l h = IsLeast-get_elem? m p xs i l.1 h

  module _ {κ} (P : A → Type κ) (o : IsWeakOrder P) where
    -- At most as many elements come before the one at a place as stand before that place, and at
    -- most as many come after it as stand after it.
    pub keep_before-get_elem? :
        (xs : List A) (i : ℕ) (p : A)
        → IsSorted xs
        → get_elem? xs i ≡ some p
        → length (keep (λ z. before z p) xs) ≤ i
    keep_before-get_elem? [] i p s h = omega arith
    keep_before-get_elem? (x ∷ xs) zero p s h =
        subst (λ y. length (keep (λ z. before z y) (x ∷ xs)) ≤ 0) (some-injective x p h)
          (rw (irrefl P o x) (omega (arith, length-keep-none (λ z. before z x) xs s.0)))
    keep_before-get_elem? (x ∷ xs) (suc i) p s h =
        ground (arith, keep_before-get_elem? xs i p s.1 h)

    pub keep_after-get_elem? :
        (xs : List A) (i : ℕ) (p : A)
        → IsSorted xs
        → get_elem? xs i ≡ some p
        → length (keep (λ z. before p z) xs) + suc i ≤ length xs
    keep_after-get_elem? [] i p s h = absurd cc
    keep_after-get_elem? (x ∷ xs) zero p s h =
        subst (λ y. length (keep (λ z. before y z) (x ∷ xs)) + 1 ≤ length (x ∷ xs))
          (some-injective x p h) (rw (irrefl P o x) (omega (arith, length-keep-le (before x) xs)))
    keep_after-get_elem? (x ∷ xs) (suc i) p s h =
        ground (arith, keep_after-get_elem? xs i p s.1 h, IsLeast-get_elem? x p xs i s.0 h)
