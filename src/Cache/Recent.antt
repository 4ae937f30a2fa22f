-- ===== src/Cache/Recent.antt =====
-- What include/cache.h promises its callers: a list of stored responses, most recent first, each
-- under its key and with the time at which it ends. It has no index, nodes or counters.
use cost_optimized_llm_infer.Common.{
  ℕ, ◌-◌, ◌/◌, Bool, true, false, not, List, [], ◌∷◌, Option, none, some, ite, Text, text_dec, ltb,
  ltb_ℤ, ℤ, pos, ◌+ℤ◌, ◌*ℤ◌, length, take, keep, if◌then◌else◌, Double,
}
use cost_optimized_llm_infer.Types.{ChatRequest, ChatResponse, second}
use cost_optimized_llm_infer.Cache.{CacheConfig, to_size_t, make_key}

pub record Item (F : Type 0) : Type 0 where
  pub key : Text
  pub response : ChatResponse F
  pub deadline : ℤ

-- The calls of the cache, each with the readings of the clock that it takes.
pub data Access (F : Type 0) : Type 0 where
  looked : ChatRequest F → (checked accessed : ℕ) → Access F
  wrote : ChatRequest F → ChatResponse F → (tidied now : ℕ) → Access F
  emptied : Access F

module _ {F : Type 0} where
  unfoldable pub find_item : Text → List (Item F) → Option (Item F)
  find_item k [] = none
  find_item k (x ∷ xs) = ite (text_dec x.key k) (some x) (find_item k xs)

  unfoldable pub remove_item : Text → List (Item F) → List (Item F)
  remove_item k [] = []
  remove_item k (x ∷ xs) = ite (text_dec x.key k) xs (x ∷ remove_item k xs)

  abbrev pub is_over : ℕ → Item F → Bool
  is_over now x = ltb_ℤ x.deadline (pos now)

  abbrev pub is_current : ℕ → Item F → Bool
  is_current now x = not (is_over now x)

  -- The items that a write leaves besides the new one: the old one under its key goes, then the
  -- least recent ones beyond the limit, then those that are over if there are many.
  unfoldable pub others_kept : ℕ → Text → ℕ → List (Item F) → List (Item F)
  others_kept limit key tidied xs =
      let ys = take (limit - 1) (remove_item key xs) in
      if ltb (limit / 2) (length ys) then keep (is_current tidied) ys else ys

module _ {F : Type 0} ⦃d : Double F⦄ where
  open d use {of_int}

  abbrev pub reply : ChatRequest F → Item F → ChatResponse F
  reply req x = record (x.response) {
    from_cache = true;
    request_id = req.request_id;
    latency_ms = of_int (pos 0);
  }

  -- A read: a current item comes to the front and is the answer, one that is over is dropped,
  -- and a cache that is off has no answer.
  unfoldable pub read_item :
      Bool → Text → ChatRequest F → ℕ → List (Item F) → List (Item F) × Option (ChatResponse F)
  read_item false key req now xs = (xs, none)
  read_item true key req now xs = elim (find_item key xs) [
    | none ↦ (xs, none)
    | some x ↦
        if is_over now x
        then (remove_item key xs, none)
        else (x ∷ remove_item key xs, some (reply req x))
  ]

  module _ (hash : Text → ℕ) (cfg : CacheConfig) where
    abbrev pub stored_item : ChatRequest F → ChatResponse F → ℕ → Item F
    stored_item req resp now = record {
      key = make_key hash cfg req;
      response = resp;
      deadline = pos now +ℤ cfg.ttl_seconds *ℤ pos second;
    }

    unfoldable pub recent_step : Access F → List (Item F) → List (Item F) × Option (ChatResponse F)
    recent_step (looked req checked accessed) xs =
        read_item cfg.enabled (make_key hash cfg req) req checked xs
    recent_step (wrote req resp tidied now) xs =
        if cfg.enabled
        then if req.stream then (xs, none) else (
          stored_item req resp now
              ∷ others_kept (to_size_t cfg.max_entries) (make_key hash cfg req) tidied xs,
          none,
        )
        else (xs, none)
    recent_step emptied xs = ([], none)

    -- The answers to a sequence of calls, and the items behind them.
    unfoldable pub recent_run :
        List (Access F) → List (Item F) → List (Item F) × List (Option (ChatResponse F))
    recent_run [] xs = (xs, [])
    recent_run (a ∷ rest) xs =
        let (ys, r) = recent_step a xs in let (zs, rs) = recent_run rest ys in (zs, r ∷ rs)
