-- ===== src/Router/Smartest.antt =====
-- The candidate that `route_smart` chooses, against the scores of the others.
use cost_optimized_llm_infer.Common.{
  Bool, true, false, List, [], ◌∷◌, ◌≡◌, ◌⊎◌, inl, inr, refl, sym, ap, Double, ◌≺◌, IsOrdered,
  length, length-sort, sort, IsWeakOrder, HasLeastHead, sort-HasLeastHead, sort-All, All-of_sort,
  arith, Bool-cases, All, Elem, All-of_Elem, All-map_of,
}
use mathlib.Core.Path.{subst}
use cost_optimized_llm_infer.Config.{GatewayConfig}
use cost_optimized_llm_infer.Router.{Router}
use cost_optimized_llm_infer.Router.Scores.{Candidate, by_score, candidates, route_smart}

sort-nil : {A : Type 0} (before : A → A → Bool) (xs : List A) → sort before xs ≡ [] → xs ≡ []
sort-nil before [] e = refl
sort-nil before (x ∷ xs) e =
    absurd (omega (arith, length-sort before (x ∷ xs), ap (λ l. length l) e))

module _ {F : Type 0} ⦃d : Double F⦄ (o : IsOrdered F) where
  -- A score that is not NaN.
  IsNumber : Candidate F → Type 0
  IsNumber c = d.eq c.score c.score ≡ true

  by_score-IsWeakOrder : IsWeakOrder by_score IsNumber
  unfolding by_score IsNumber
  by_score-IsWeakOrder = record {
    asym = λ a b h. elim (Bool-cases (d.lt a.score b.score)) [
      | inl e ↦ absurd (o.lt_irrefl a.score (o.lt_trans a.score b.score a.score e h))
      | inr e ↦ e
    ];
    not_before_trans = λ a b c number not_c not_b. elim (Bool-cases (d.lt a.score c.score)) [
      | inl e ↦ elim (o.lt_cotrans a.score c.score b.score number e) [
        | inl low ↦ absurd cc
        | inr high ↦ absurd cc
      ]
      | inr e ↦ e
    ];
  }

  -- A candidate that no candidate has a higher score than.
  abbrev pub IsHighest : GatewayConfig F → Router F → Candidate F → Type 0
  IsHighest cfg r c =
      Elem c (candidates cfg r) × All (λ x. ¬ (c.score ≺ x.score)) (candidates cfg r)

  head-IsHighest :
      (cfg : GatewayConfig F) (r : Router F) (c : Candidate F) (cs : List (Candidate F))
      → sort by_score (candidates cfg r) ≡ c ∷ cs
      → All (λ x. by_score x c ≡ false) cs
      → IsHighest cfg r c
  unfolding by_score
  head-IsHighest cfg r c cs e least = (
    (subst (All (λ x. Elem x (candidates cfg r))) e (
        sort-All by_score (λ x. Elem x (candidates cfg r)) (candidates cfg r)
          (All-of_Elem _ (candidates cfg r) (λ x m. m)))).0,
    All-of_sort by_score (λ x. ¬ (c.score ≺ x.score)) (candidates cfg r)
        (subst (All (λ x. ¬ (c.score ≺ x.score))) (sym e) (
          o.lt_irrefl c.score,
          All-map_of (λ x. by_score x c ≡ false) (λ x. ¬ (c.score ≺ x.score)) cs
              (λ x no_less less. cc) least,
        )),
  )

  -- The comparisons of `double` have the laws of IEEE 754. If the score of no candidate is NaN,
  -- either there is no candidate, or the decision of the smart strategy is made for a candidate
  -- that no other candidate beats.
  pub route_smart-IsHighest :
      (cfg : GatewayConfig F) (r : Router F)
      → All (λ c. d.eq c.score c.score ≡ true) (candidates cfg r)
      → (candidates cfg r ≡ [])
        ⊎ ((c : Candidate F) × IsHighest cfg r c
            × ((route_smart cfg r).provider ≡ c.provider)
            × ((route_smart cfg r).model ≡ c.model))
  unfolding route_smart IsNumber
  route_smart-IsHighest cfg r numbers =
      by_sorted (sort by_score (candidates cfg r)) refl
        (sort-HasLeastHead by_score IsNumber by_score-IsWeakOrder (candidates cfg r) numbers)
    where
      by_sorted :
          (cs : List (Candidate F))
          → sort by_score (candidates cfg r) ≡ cs
          → HasLeastHead by_score cs
          → (candidates cfg r ≡ [])
            ⊎ ((c : Candidate F) × IsHighest cfg r c
                × ((route_smart cfg r).provider ≡ c.provider)
                × ((route_smart cfg r).model ≡ c.model))
      by_sorted [] e h = inl (sort-nil by_score (candidates cfg r) e)
      by_sorted (c ∷ cs) e h =
          inr (c, head-IsHighest cfg r c cs e h, rw (e, route_smart) refl, rw (e, route_smart) refl)
