-- ===== src/CostTracker/History.antt =====
-- The bounded history of requests, and what is read from it.
use cost_optimized_llm_infer.Common.{
  ℕ, ◌-◌, ◌≤◌, List, [], ◌∷◌, ◌++◌, append_assoc, append-nil, foldl, map, some, ◌≡◌, ap, sym, ◌∙◌,
  pos, ◌-ℤ◌, Double, arith, Bool-cases, inl, inr, length, drop, last_n, last_n-append, drop-append,
  length-append, length-drop, leb,
}
use cost_optimized_llm_infer.Types.{RequestMetrics}
use cost_optimized_llm_infer.CostTracker.{
  CostTracker, max_history, priced, push_history, record_request, get_recent,
}

module _ {F : Type 0} where
  push_history-last_n :
      (m : RequestMetrics F) (h : List (RequestMetrics F))
      → length h ≤ max_history
      → push_history m h ≡ last_n max_history (h ++ m ∷ [])
  unfolding push_history
  push_history-last_n m h few = elim (Bool-cases (leb max_history (length h))) [
    | inl full ↦ rw full (
        sym (drop-append 1 h (m ∷ []) (ground arith))
        ∙ ap (λ k. drop k (h ++ m ∷ [])) {x = 1} (ground (arith, length-append h (m ∷ []))))
    | inr room ↦
        rw room (ap (λ k. drop k (h ++ m ∷ [])) {x = 0} (ground (arith, length-append h (m ∷ []))))
  ]

  length-push_history :
      (m : RequestMetrics F) (h : List (RequestMetrics F))
      → length h ≤ max_history
      → length (push_history m h) ≤ max_history
  length-push_history m h few = rw (push_history-last_n m h few) (
      omega (
        arith,
        length-drop (length (h ++ m ∷ []) - max_history) (h ++ m ∷ []),
        length-append h (m ∷ []),
      ))

module _ {F : Type 0} ⦃d : Double F⦄ where
  -- After a series of requests the history is the last hundred thousand of all of them, in their
  -- order, each with its recomputed cost.
  pub history-foldl :
      (ms : List (RequestMetrics F)) (t : CostTracker F)
      → length t.history ≤ max_history
      → (foldl (λ s m. record_request m s) t ms).history
        ≡ last_n max_history (t.history ++ map (priced t.pricing) ms)
  unfolding record_request
  history-foldl [] t few =
      sym (append-nil t.history)
      ∙ ap (λ k. drop k (t.history ++ [])) {x = 0} (omega (arith, length-append t.history []))
  history-foldl (m ∷ ms) t few =
      let m' = priced t.pricing m in
      let rest = map (priced t.pricing) ms in
      history-foldl ms (record_request m t) (length-push_history m' t.history few)
      ∙ ap (λ h. last_n max_history (h ++ rest)) (push_history-last_n m' t.history few)
      ∙ last_n-append max_history (t.history ++ m' ∷ []) rest
      ∙ ap (last_n max_history) (append_assoc t.history (m' ∷ []) rest)

  -- For a limit that is not negative the recent requests are the end of the history, as many as
  -- the limit allows; for a negative one the code leaves its defined behaviour.
  pub get_recent_lem :
      (n : ℕ) (t : CostTracker F) → get_recent (pos n) t ≡ some (last_n n t.history)
  unfolding get_recent ◌-ℤ◌
  get_recent_lem n t = ground arith
