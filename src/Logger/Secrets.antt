-- ===== src/Logger/Secrets.antt =====
-- What the lines of the log tell of a key.
use cost_optimized_llm_infer.Common.{Text, is_empty, take, [], ◌∷◌, ◌++◌, codes, ◌≡◌, refl, ap}
use cost_optimized_llm_infer.Types.{ChatRequest}
use cost_optimized_llm_infer.Logger.{shown_key, log_request, log_rate_limited}

shown_key-take : (k j : Text) → take 8 k ≡ take 8 j → shown_key k ≡ shown_key j
unfolding shown_key is_empty
shown_key-take [] [] e = refl
shown_key-take [] (c ∷ j) e = absurd cc
shown_key-take (c ∷ k) [] e = absurd cc
shown_key-take (c ∷ k) (b ∷ j) e = ap (λ t. t ++ codes "...") e

-- The lines about a request and about its refusal tell no more of the authorization header than its
-- first eight bytes: with another header that starts with them, the lines are the same.
pub log-take :
    {F : Type 0} (req : ChatRequest F) (request_id other : Text)
    → take 8 req.api_key ≡ take 8 other
    → (log_request req ≡ log_request (record req { api_key = other }))
      × (log_rate_limited request_id req.api_key ≡ log_rate_limited request_id other)
unfolding log_request log_rate_limited
log-take req request_id other e =
    let same = shown_key-take req.api_key other e in
    (rw (same, log_request) refl, rw (same, log_rate_limited) refl)
