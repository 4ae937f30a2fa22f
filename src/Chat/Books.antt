-- ===== src/Chat/Books.antt =====
-- What the handler writes into the books of cost.
use cost_optimized_llm_infer.Common.{
  false, not, ◌&&◌, List, [], ◌∷◌, foldl, Text, is_empty, same_text, ◌≡◌, refl, ◌∙◌, pos, Double,
  arith, Bool-cases, inl, inr, All, All-append, length, drop, leb,
}
use cost_optimized_llm_infer.Types.{ChatRequest, ChatResponse, RequestMetrics}
use cost_optimized_llm_infer.CostTracker.{
  CostTracker, SpendSummary, max_history, push_history, priced, record_request, summarise,
  empty_summary, get_summary,
}
use cost_optimized_llm_infer.Chat.{World, metrics_of}

module _ {F : Type 0} where
  -- No request of the history is marked as answered from the cache.
  abbrev pub NoHits : List (RequestMetrics F) → Type 0
  NoHits = All (λ m. m.cache_hit ≡ false)

  NoHits-tail : (ms : List (RequestMetrics F)) → NoHits ms → NoHits (drop 1 ms)
  NoHits-tail [] h = tt
  NoHits-tail (m ∷ ms) h = h.1

  push_history-NoHits :
      (m : RequestMetrics F) (ms : List (RequestMetrics F))
      → m.cache_hit ≡ false
      → NoHits ms
      → NoHits (push_history m ms)
  unfolding push_history
  push_history-NoHits m ms e h = elim (Bool-cases (leb max_history (length ms))) [
    | inl full ↦
        rw full
          (All-append (λ x. x.cache_hit ≡ false) (drop 1 ms) (m ∷ []) (NoHits-tail ms h) (e, tt))
    | inr room ↦ rw room (All-append (λ x. x.cache_hit ≡ false) ms (m ∷ []) h (e, tt))
  ]

module _ {F : Type 0} ⦃d : Double F⦄ where
  summarise-cached :
      (key : Text) (s : SpendSummary F) (m : RequestMetrics F)
      → m.cache_hit ≡ false
      → (summarise key s m).cached_requests ≡ s.cached_requests
  unfolding summarise
  summarise-cached key s m e =
      elim (Bool-cases (not (is_empty key) && not (same_text m.api_key key))) [
        | inl skip ↦ rw skip refl
        | inr take ↦ rw (take, e) refl
      ]

  summaries-cached :
      (key : Text) (s : SpendSummary F) (ms : List (RequestMetrics F))
      → NoHits ms
      → (foldl (summarise key) s ms).cached_requests ≡ s.cached_requests
  summaries-cached key s [] h = refl
  summaries-cached key s (m ∷ ms) h =
      summaries-cached key (summarise key s m) ms h.1 ∙ summarise-cached key s m h.0

  pub get_summary-cached :
      (key : Text) (t : CostTracker F)
      → NoHits t.history
      → (get_summary key t).cached_requests ≡ pos 0
  unfolding get_summary empty_summary
  get_summary-cached key t h = summaries-cached key empty_summary t.history h

  priced-cache_hit :
      (pricing : _) (m : RequestMetrics F) → (priced pricing m).cache_hit ≡ m.cache_hit
  unfolding priced
  priced-cache_hit pricing m = ground arith

  pub record_request-NoHits :
      (w : World) (req : ChatRequest F) (resp : ChatResponse F) (t : CostTracker F)
      → NoHits t.history
      → NoHits (record_request (metrics_of w req resp) t).history
  unfolding record_request metrics_of
  record_request-NoHits w req resp t h =
      push_history-NoHits (priced t.pricing (metrics_of w req resp)) t.history
        (priced-cache_hit t.pricing (metrics_of w req resp)) h
