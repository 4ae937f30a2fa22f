-- ===== src/Common/Members.antt =====
-- Membership in a list, and how a property of every element reaches the elements that are read,
-- kept or folded.
use Prim.Native.Nat.{ℕ, zero, suc, ◌<◌}
use mathlib.Core.Bool.{Bool, true}
use mathlib.Core.List.{List, [], ◌∷◌, ◌++◌, foldl, map}
use mathlib.Core.Logic.{◌⊎◌, inl, inr}
use mathlib.Core.Option.{some}
use mathlib.Core.Path.{◌≡◌, refl, ap, subst}
use native.Mathlib.Omega.{arith}
use cost_optimized_llm_infer.Common.Lists.{All, Any, length, get_elem?, keep, concat}
use cost_optimized_llm_infer.Common.Tests.{if◌then◌else◌, Bool-cases}

-- `x` is an element of the list.
abbrev pub Elem : {A : Type 0} → A → List A → Type 0
Elem x = Any (λ y. y ≡ x)

pub All-of_Elem {κ} :
    {A : Type 0} (P : A → Type κ) (xs : List A) → ((x : A) → Elem x xs → P x) → All P xs
All-of_Elem P [] h = tt
All-of_Elem P (x ∷ xs) h = (h x (inl refl), All-of_Elem P xs (λ y m. h y (inr m)))

pub All-at {κ} : {A : Type 0} (P : A → Type κ) (xs : List A) (x : A) → Elem x xs → All P xs → P x
All-at P [] x m h = absurd m
All-at P (y ∷ ys) x (inl e) h = subst P e h.0
All-at P (y ∷ ys) x (inr m) h = All-at P ys x m h.1

pub All-get_elem? {κ} :
    {A : Type 0} (P : A → Type κ) (xs : List A) (i : ℕ)
    → i < length xs
    → All P xs
    → (x : A) × (get_elem? xs i ≡ some x) × P x
All-get_elem? P [] i lt h = absurd (omega arith)
All-get_elem? P (x ∷ xs) zero lt h = (x, refl, h.0)
All-get_elem? P (x ∷ xs) (suc i) lt h = All-get_elem? P xs i (omega arith) h.1

pub keep-Elem :
    {A : Type 0} (p : A → Bool) (xs : List A) (x : A)
    → Elem x (keep p xs)
    → (p x ≡ true) × Elem x xs
keep-Elem p [] x m = absurd m
keep-Elem p (y ∷ ys) x m = elim (Bool-cases (p y)) [
  | inl e ↦
      let n : (y ≡ x) ⊎ Elem x (keep p ys) =
        subst (λ b. Elem x (if b then y ∷ keep p ys else keep p ys)) e m in
      elim n [
        | inl s ↦ (subst (λ z. p z ≡ true) s e, inl s)
        | inr later ↦ let (a, b) = keep-Elem p ys x later in (a, inr b)
      ]
  | inr e ↦
      let n : Elem x (keep p ys) =
        subst (λ b. Elem x (if b then y ∷ keep p ys else keep p ys)) e m in
      let (a, b) = keep-Elem p ys x n in (a, inr b)
]

pub foldl_ind {κ} :
    {A B : Type 0} (P : B → Type κ) (f : B → A → B) (b : B) (xs : List A)
    → All (λ x. (c : B) → P c → P (f c x)) xs
    → P b
    → P (foldl f b xs)
foldl_ind P f b [] h p = p
foldl_ind P f b (x ∷ xs) h p = foldl_ind P f (f b x) xs h.1 (h.0 b p)

pub Elem-map : {A B : Type 0} (f : A → B) (x : A) (xs : List A) → Elem x xs → Elem (f x) (map f xs)
Elem-map f x [] m = absurd m
Elem-map f x (y ∷ ys) (inl e) = inl (ap f e)
Elem-map f x (y ∷ ys) (inr m) = inr (Elem-map f x ys m)

pub map-Elem :
    {A B : Type 0} (f : A → B) (z : B) (xs : List A)
    → Elem z (map f xs)
    → (x : A) × Elem x xs × (f x ≡ z)
map-Elem f z [] m = absurd m
map-Elem f z (y ∷ ys) (inl e) = (y, inl refl, e)
map-Elem f z (y ∷ ys) (inr m) = let (x, n, e) = map-Elem f z ys m in (x, inr n, e)

pub Elem-append : {A : Type 0} (x : A) (xs ys : List A) → Elem x (xs ++ ys) → Elem x xs ⊎ Elem x ys
Elem-append x [] ys m = inr m
Elem-append x (y ∷ xs) ys (inl e) = inl (inl e)
Elem-append x (y ∷ xs) ys (inr m) = elim (Elem-append x xs ys m) [
  | inl a ↦ inl (inr a)
  | inr b ↦ inr b
]

pub concat-Elem :
    {A B : Type 0} (f : A → List B) (z : B) (xs : List A)
    → Elem z (concat (map f xs))
    → (x : A) × Elem x xs × Elem z (f x)
concat-Elem f z [] m = absurd m
concat-Elem f z (y ∷ ys) m = elim (Elem-append z (f y) (concat (map f ys)) m) [
  | inl a ↦ (y, inl refl, a)
  | inr b ↦ let (x, n, e) = concat-Elem f z ys b in (x, inr n, e)
]
