-- ===== src/CostTracker/Spend.antt =====
-- What is spent and estimated.
use cost_optimized_llm_infer.Common.{
  true, List, [], ◌∷◌, foldl, none, some, ite, Text, is_empty, text_dec, ◌≡◌, ◌≢◌, refl, ap, ◌∙◌,
  pos, Dict, lookup, lookup-insert, Double, arith, Option-cases, inl, inr,
}
use cost_optimized_llm_infer.Types.{ModelPricing, RequestMetrics}
use cost_optimized_llm_infer.CostTracker.{
  CostTracker, price_key, estimate_cost, add_to, priced, record_request, get_spend,
}

is_empty-eq-nil : (k : Text) → is_empty k ≡ true → k ≡ []
unfolding is_empty
is_empty-eq-nil [] h = refl
is_empty-eq-nil (_ ∷ _) h = cc

module _ {F : Type 0} ⦃d : Double F⦄ where
  open d use {of_int, add}

  -- A request whose cost is the estimate for its model and tokens is recorded at that cost.
  pub priced-estimate_cost :
      (t : CostTracker F) (m : RequestMetrics F)
      → m.cost_usd ≡ estimate_cost m.provider m.model m.prompt_tokens m.completion_tokens t
      → (priced t.pricing m).cost_usd ≡ m.cost_usd
  unfolding priced estimate_cost
  priced-estimate_cost t m e =
      ground (arith, Option-cases (lookup (price_key m.provider m.model) t.pricing))

  value_at : Text → Dict F → F
  value_at k m = elim (lookup k m) [ none ↦ of_int (pos 0) | some y ↦ y ]

  value_at-add_to :
      (j k : Text) (x : F) (m : Dict F)
      → value_at j (add_to k x m) ≡ ite (text_dec k j) (add (value_at k m) x) (value_at j m)
  unfolding value_at add_to
  value_at-add_to j k x m = elim (Option-cases (lookup k m)) [
    | inl e ↦ ground (arith, lookup-insert j k (add (of_int (pos 0)) x) m)
    | inr (y, e) ↦ ground (arith, lookup-insert j k (add y x) m)
  ]

  -- What one key has spent on a series of requests, added up in their order.
  unfoldable spent : Text → Dict (ModelPricing F) → F → List (RequestMetrics F) → F
  spent k pricing sum [] = sum
  spent k pricing sum (m ∷ ms) =
      spent k pricing (ite (text_dec m.api_key k) (add sum (priced pricing m).cost_usd) sum) ms

  pub priced-api_key :
      (pricing : Dict (ModelPricing F)) (m : RequestMetrics F)
      → (priced pricing m).api_key ≡ m.api_key
  unfolding priced
  priced-api_key pricing m = ground arith

  pub get_spend-record_request :
      (k : Text) (m : RequestMetrics F) (t : CostTracker F)
      → k ≢ []
      → get_spend k (record_request m t)
        ≡ ite
            (text_dec m.api_key k)
            (add (get_spend k t) (priced t.pricing m).cost_usd)
            (get_spend k t)
  unfolding get_spend record_request value_at
  get_spend-record_request k m t named =
      let m' = priced t.pricing m in
      ground (
        arith,
        priced-api_key t.pricing m,
        is_empty-eq-nil m'.api_key,
        value_at-add_to k m'.api_key m'.cost_usd t.spend_by_key,
      )

  -- After a series of requests the spend of a key is the sum of the costs of its own requests, in
  -- their order, on top of what it was; other keys and requests with no key add nothing.
  get_spend-foldl :
      (k : Text) (ms : List (RequestMetrics F)) (t : CostTracker F)
      → k ≢ []
      → get_spend k (foldl (λ s m. record_request m s) t ms) ≡ spent k t.pricing (get_spend k t) ms
  unfolding spent record_request
  get_spend-foldl k [] t named = refl
  get_spend-foldl k (m ∷ ms) t named =
      get_spend-foldl k ms (record_request m t) named
      ∙ ap (λ (x : F). spent k t.pricing x ms) (get_spend-record_request k m t named)
