-- ===== src/Chat/Series.antt =====
-- Requests handled one after the other: the counters, and what each key is charged.
use mathlib.Core.Path.{subst}
use cost_optimized_llm_infer.Common.{
  ℕ, suc, ◌<◌, Bool, true, false, List, [], ◌∷◌, Option, some, ite, Text, text_dec, ◌≡◌, ◌≢◌, refl,
  sym, ap, ◌∙◌, Double, Bool-cases, inl, inr, length, arith, keep, ◌>>=◌,
}
use cost_optimized_llm_infer.Types.{ChatRequest}
use cost_optimized_llm_infer.Cache.{to_size_t}
use cost_optimized_llm_infer.Cache.Invariant.{inc64s, inc64s-inc64}
use cost_optimized_llm_infer.CostTracker.{CostTracker, get_spend}
use cost_optimized_llm_infer.CostTracker.Spend.{get_spend-record_request, priced-estimate_cost}
use cost_optimized_llm_infer.Metrics.{
  Metrics, inc_requests, inc_errors, inc_cache_hits, inc_cache_misses, observe_latency,
  observe_tokens,
}
use cost_optimized_llm_infer.Config.{GatewayConfig}
use cost_optimized_llm_infer.Providers.{Registry}
use cost_optimized_llm_infer.Chat.{
  Gateway, World, Calls, Outcome, no_messages, limited, hit, no_providers, not_available,
  all_failed, miss, metrics_of, handle,
}
use cost_optimized_llm_infer.Chat.Totality.{IsSound}
use cost_optimized_llm_infer.Chat.Ledger.{tallied, billed, IsPriced, handle-tallied}

-- A request that comes in, with the readings of the clock and the replies that it meets.
pub record Arrival (F : Type 0) : Type 0 where
  pub world : World
  pub calls : Calls F
  pub request : ChatRequest F

module _ {F : Type 0} where
  abbrev pub is_hit : Outcome F → Bool
  is_hit (hit resp) = true
  is_hit out = false

  -- The cache was asked, and had no answer.
  abbrev pub is_miss : Outcome F → Bool
  is_miss no_messages = false
  is_miss (limited r) = false
  is_miss (hit resp) = false
  is_miss out = true

  abbrev pub is_error : Outcome F → Bool
  is_error (no_providers model) = true
  is_error (not_available name) = true
  is_error (all_failed model) = true
  is_error out = false

  -- How many responses are of a kind.
  abbrev pub count_of : (Outcome F → Bool) → List (Outcome F) → ℕ
  count_of p outs = length (keep p outs)

module _ {F : Type 0} ⦃d : Double F⦄ where
  -- What a key pays for a response: the cost of an answer of a provider, and nothing else.
  abbrev pub paid : Text → ChatRequest F → Outcome F → F → F
  paid k req (miss resp st) sum = ite (text_dec req.api_key k) (d.add sum resp.cost_usd) sum
  paid k req out sum = sum

  unfoldable pub bill : Text → List (Arrival F) → List (Outcome F) → F → F
  bill k (a ∷ arrivals) (out ∷ outs) sum = bill k arrivals outs (paid k a.request out sum)
  bill k arrivals outs sum = sum

  module _ (fuel : ℕ) (cfg : GatewayConfig F) (reg : Registry) where
    unfoldable pub handle_all : List (Arrival F) → Gateway F → Option (Gateway F × List (Outcome F))
    handle_all [] g = some (g, [])
    handle_all (a ∷ arrivals) g = do
      out ← handle fuel a.world cfg reg a.calls a.request g
      later ← handle_all arrivals out.0
      some (later.0, out.1 ∷ later.1)

  -- The counters of two snapshots, with the responses in between.
  pub record IsCounted (outs : List (Outcome F)) (m m' : Metrics F) : Type 0 where
    pub requests : m'.total_requests ≡ inc64s (length outs) m.total_requests
    pub hits : m'.cache_hits ≡ inc64s (count_of is_hit outs) m.cache_hits
    pub misses : m'.cache_misses ≡ inc64s (count_of is_miss outs) m.cache_misses
    pub errors : m'.total_errors ≡ inc64s (count_of is_error outs) m.total_errors

  tallied-IsCounted :
      (out : Outcome F) (m : Metrics F) → IsCounted (out ∷ []) m (tallied out (inc_requests m))
  unfolding tallied inc_requests inc_errors inc_cache_hits inc_cache_misses observe_latency
      observe_tokens
  tallied-IsCounted no_messages m = record {
    requests = refl;
    hits = refl;
    misses = refl;
    errors = refl;
  }
  tallied-IsCounted (limited r) m = record {
    requests = refl;
    hits = refl;
    misses = refl;
    errors = refl;
  }
  tallied-IsCounted (hit resp) m = record {
    requests = refl;
    hits = refl;
    misses = refl;
    errors = refl;
  }
  tallied-IsCounted (no_providers x) m = record {
    requests = refl;
    hits = refl;
    misses = refl;
    errors = refl;
  }
  tallied-IsCounted (not_available x) m = record {
    requests = refl;
    hits = refl;
    misses = refl;
    errors = refl;
  }
  tallied-IsCounted (all_failed x) m = record {
    requests = refl;
    hits = refl;
    misses = refl;
    errors = refl;
  }
  tallied-IsCounted (miss resp st) m = record {
    requests = refl;
    hits = refl;
    misses = refl;
    errors = refl;
  }

  inc64s-count_of :
      (p : Outcome F → Bool) (out : Outcome F) (outs : List (Outcome F)) (n : ℕ)
      → inc64s (count_of p outs) (inc64s (count_of p (out ∷ [])) n)
        ≡ inc64s (count_of p (out ∷ outs)) n
  inc64s-count_of p out outs n = elim (Bool-cases (p out)) [
    | inl counted ↦ rw counted (inc64s-inc64 (count_of p outs) n)
    | inr other ↦ rw other refl
  ]

  IsCounted-trans :
      (out : Outcome F) (outs : List (Outcome F)) (m m' m'' : Metrics F)
      → IsCounted (out ∷ []) m m'
      → IsCounted outs m' m''
      → IsCounted (out ∷ outs) m m''
  IsCounted-trans out outs m m' m'' first rest =
      let step = λ (p : Outcome F → Bool) (n : ℕ). inc64s-count_of p out outs n in
      record {
        requests =
            rest.requests
            ∙ ap (inc64s (length outs)) first.requests
            ∙ inc64s-inc64 (length outs) m.total_requests;
        hits = rest.hits ∙ ap (inc64s (count_of is_hit outs)) first.hits ∙ step is_hit m.cache_hits;
        misses =
            rest.misses
            ∙ ap (inc64s (count_of is_miss outs)) first.misses
            ∙ step is_miss m.cache_misses;
        errors =
            rest.errors
            ∙ ap (inc64s (count_of is_error outs)) first.errors
            ∙ step is_error m.total_errors;
      }

  get_spend-billed :
      (k : Text) (w : World) (req : ChatRequest F) (out : Outcome F) (t : CostTracker F)
      → k ≢ []
      → IsPriced t out
      → get_spend k (billed w req out t) ≡ paid k req out (get_spend k t)
  unfolding billed metrics_of
  get_spend-billed k w req no_messages t named same = refl
  get_spend-billed k w req (limited r) t named same = refl
  get_spend-billed k w req (hit resp) t named same = refl
  get_spend-billed k w req (no_providers x) t named same = refl
  get_spend-billed k w req (not_available x) t named same = refl
  get_spend-billed k w req (all_failed x) t named same = refl
  get_spend-billed k w req (miss resp st) t named same =
      let m = metrics_of w req resp in
      get_spend-record_request k m t named
      ∙ ap (λ x. ite (text_dec req.api_key k) (d.add (get_spend k t) x) (get_spend k t))
          (priced-estimate_cost t m same)

  module _ (k : Text) (fuel : ℕ) (cfg : GatewayConfig F) (reg : Registry) where
    -- In a sound gateway, with room for an entry and fuel beyond the number of entries the cache
    -- may hold, any requests handled one after the other all get a response, whatever the clock and
    -- the providers do. The metrics then count each request, each hit, each miss and each failure
    -- among the responses, modulo 2 ^ 64, and a key that is not empty has spent, on top of what it
    -- had, the costs of the answers of providers to its own requests, in their order: a hit, a
    -- refusal and a failure cost nothing. The gateway behind them is sound.
    pub get_spend-handle_all :
        (arrivals : List (Arrival F)) (g : Gateway F)
        → k ≢ []
        → 0 < to_size_t cfg.cache.max_entries
        → to_size_t cfg.cache.max_entries < fuel
        → IsSound cfg.cache g
        → (g' : Gateway F) × (outs : List (Outcome F)) × (handle_all fuel cfg reg arrivals g
            ≡ some (g', outs))
          × (length outs ≡ length arrivals)
          × IsCounted outs g.metrics g'.metrics
          × (get_spend k g'.costs ≡ bill k arrivals outs (get_spend k g.costs))
          × IsSound cfg.cache g'
    unfolding handle_all bill
    get_spend-handle_all [] g named room enough s = (
      g,
      [],
      refl,
      refl,
      record { requests = refl; hits = refl; misses = refl; errors = refl },
      refl,
      s,
    )
    get_spend-handle_all (a ∷ arrivals) g named room enough s =
        let (g1, out, ended, tally, booked, price, sound) =
          handle-tallied fuel a.world cfg reg a.calls a.request g room s
            (omega (arith, s.few, enough)) in
        let (g2, outs, all, same, counted, spent, last) =
          get_spend-handle_all arrivals g1 named room enough sound in
        let first =
          subst (IsCounted (out ∷ []) g.metrics) (sym tally) (tallied-IsCounted out g.metrics) in
        let charge =
          ap (get_spend k) booked ∙ get_spend-billed k a.world a.request out g.costs named price in
        (
          g2,
          out ∷ outs,
          rw (ended, all) refl,
          ap suc same,
          IsCounted-trans out outs g.metrics g1.metrics g2.metrics first counted,
          spent ∙ ap (bill k arrivals outs) charge,
          last,
        )
