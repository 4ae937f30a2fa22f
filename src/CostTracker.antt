-- ===== src/CostTracker.antt =====
-- include/cost_tracker.h and src/cost_tracker.cpp. A sum of `double`s is taken in the order of the
-- code; no law of their arithmetic is used.
pub mod Spend
pub mod History
use cost_optimized_llm_infer.Common.{
  ℕ, ◌+◌, Bool, true, not, ◌&&◌, List, [], ◌∷◌, ◌++◌, foldl, Option, none, some, Text, is_empty,
  same_text, codes, length, drop, leb, ℤ, pos, ◌+ℤ◌, ◌-ℤ◌, max_ℤ, leb_ℤ, pos_part, Dict, lookup,
  insert, Double, if◌then◌else◌,
}
use cost_optimized_llm_infer.Types.{ModelPricing, RequestMetrics}

abbrev pub max_history : ℕ
max_history = 100_000

pub record CostTracker (F : Type 0) : Type 0 where
  pub history : List (RequestMetrics F)
  pub spend_by_key : Dict F
  pub pricing : Dict (ModelPricing F)

pub record SpendSummary (F : Type 0) : Type 0 where
  pub total_usd : F
  pub cache_savings_usd : F
  pub total_requests : ℤ
  pub cached_requests : ℤ
  pub by_provider : Dict F
  pub by_model : Dict F

-- `provider + ":" + model`
unfoldable pub price_key : Text → Text → Text
price_key provider model = provider ++ (codes ":" ++ model)

module _ {F : Type 0} where
  -- The oldest request goes when the history is full.
  unfoldable pub push_history : RequestMetrics F → List (RequestMetrics F) → List (RequestMetrics F)
  push_history m h = (if leb max_history (length h) then drop 1 h else h) ++ (m ∷ [])

module _ {F : Type 0} ⦃d : Double F⦄ where
  open d use {lit, of_int, add, mul, div}

  -- The constructor copies the pricing of the configuration.
  unfoldable pub init : Dict (ModelPricing F) → CostTracker F
  init pricing = record {
    history = [];
    spend_by_key = [];
    pricing = foldl (λ m (k, p). insert k p m) [] pricing;
  }

  -- The cost of a request at a price per thousand tokens.
  unfoldable pub token_cost : ModelPricing F → (input output : ℤ) → F
  token_cost p input output =
      add (mul (div (of_int input) (lit 1000 0)) p.input_cost_per_1k)
        (mul (div (of_int output) (lit 1000 0)) p.output_cost_per_1k)

  unfoldable pub estimate_cost : Text → Text → (input output : ℤ) → CostTracker F → F
  estimate_cost provider model input output t = elim (lookup (price_key provider model) t.pricing) [
    | none ↦ div (mul (of_int (input +ℤ output)) (lit 2 3)) (lit 1000 0)
    | some p ↦ token_cost p input output
  ]

  -- `m[k] += x`, where a new key starts from zero.
  unfoldable pub add_to : Text → F → Dict F → Dict F
  add_to k x m = elim (lookup k m) [
    | none ↦ insert k (add (of_int (pos 0)) x) m
    | some y ↦ insert k (add y x) m
  ]

  -- The request with its cost recomputed, if its model has a price.
  unfoldable pub priced : Dict (ModelPricing F) → RequestMetrics F → RequestMetrics F
  priced pricing m = elim (lookup (price_key m.provider m.model) pricing) [
    | none ↦ m
    | some p ↦ record m { cost_usd = token_cost p m.prompt_tokens m.completion_tokens }
  ]

  unfoldable pub record_request : RequestMetrics F → CostTracker F → CostTracker F
  record_request metrics t =
      let m = priced t.pricing metrics in
      record t {
        spend_by_key =
            if is_empty m.api_key
            then t.spend_by_key
            else add_to m.api_key m.cost_usd t.spend_by_key;
        history = push_history m t.history;
      }

  -- No budget is enforced.
  unfoldable pub check_budget : Text → CostTracker F → Bool
  check_budget api_key t = true

  unfoldable pub get_spend : Text → CostTracker F → F
  get_spend api_key t = elim (lookup api_key t.spend_by_key) [ none ↦ of_int (pos 0) | some x ↦ x ]

  -- One round of the loop of `get_summary`.
  unfoldable pub summarise : Text → SpendSummary F → RequestMetrics F → SpendSummary F
  summarise api_key s m =
      if not (is_empty api_key) && not (same_text m.api_key api_key) then s else record {
        total_usd = add s.total_usd m.cost_usd;
        cache_savings_usd =
            if m.cache_hit then add s.cache_savings_usd m.cost_usd else s.cache_savings_usd;
        total_requests = s.total_requests +ℤ pos 1;
        cached_requests = if m.cache_hit then s.cached_requests +ℤ pos 1 else s.cached_requests;
        by_provider = add_to m.provider m.cost_usd s.by_provider;
        by_model = add_to m.model m.cost_usd s.by_model;
      }

  unfoldable pub empty_summary : SpendSummary F
  empty_summary = record {
    total_usd = of_int (pos 0);
    cache_savings_usd = of_int (pos 0);
    total_requests = pos 0;
    cached_requests = pos 0;
    by_provider = [];
    by_model = [];
  }

  unfoldable pub get_summary : Text → CostTracker F → SpendSummary F
  get_summary api_key t = foldl (summarise api_key) empty_summary t.history

  -- The last `limit` requests. `none`: a negative limit starts behind the end of the history, which
  -- C++ leaves undefined.
  unfoldable pub get_recent : ℤ → CostTracker F → Option (List (RequestMetrics F))
  get_recent limit t =
      let start = max_ℤ (pos 0) (pos (length t.history) -ℤ limit) in
      if leb_ℤ start (pos (length t.history)) then some (drop (pos_part start) t.history) else none

  unfoldable pub set_pricing : Text → ModelPricing F → CostTracker F → CostTracker F
  set_pricing model p t = record t { pricing = insert (price_key p.provider model) p t.pricing }

  unfoldable pub get_pricing : Text → Text → CostTracker F → ModelPricing F
  get_pricing provider model t = elim (lookup (price_key provider model) t.pricing) [
    | none ↦ record {
      provider = provider;
      model = model;
      input_cost_per_1k = lit 2 3;
      output_cost_per_1k = lit 2 3;
    }
    | some p ↦ p
  ]
