-- ===== src/Chat/Answers.antt =====
-- Where the answer of a request comes from: the cache, the provider that was chosen, or a fallback.
use cost_optimized_llm_infer.Common.{
  ℕ, suc, ◌<◌, true, false, List, [], ◌∷◌, ◌++◌, Option, none, some, Text, ◌≡◌, ◌⊎◌, inl, inr, refl,
  sym, ap, pos, ◌≤ℤ◌, ◌+ℤ◌, ◌*ℤ◌, Double, Option-cases, length, All,
}
use mathlib.Core.Path.{subst}
use cost_optimized_llm_infer.Types.{ChatRequest, ChatResponse, RouteDecision, second}
use cost_optimized_llm_infer.Cache.{to_size_t, make_key}
use cost_optimized_llm_infer.Cache.Invariant.{IsValid}
use cost_optimized_llm_infer.Cache.Store.{get-put}
use cost_optimized_llm_infer.Metrics.{inc_cache_hits}
use cost_optimized_llm_infer.Config.{GatewayConfig}
use cost_optimized_llm_infer.Router.{Router, first_model, report_failure}
use cost_optimized_llm_infer.Providers.{
  Registry, Provider, ProviderKind, openai, anthropic, together, groq, Reply, answered, raised,
  find_provider, supported_models,
}
use cost_optimized_llm_infer.Chat.{
  Gateway, World, Calls, hit, miss, try_fallbacks, call_providers, charged, book, finish, look_up,
}

supported_models-some :
    (k : ProviderKind) → (m : Text) × (ms : List Text) × (supported_models k ≡ m ∷ ms)
unfolding supported_models
supported_models-some openai = (_, _, refl)
supported_models-some anthropic = (_, _, refl)
supported_models-some together = (_, _, refl)
supported_models-some groq = (_, _, refl)

module _ {F : Type 0} where
  pub Reply-cases :
      (r : Reply F)
      → ((resp : ChatResponse F) × (r ≡ answered resp)) ⊎ ((e : Text) × (r ≡ raised e))
  Reply-cases (answered resp) = inl (resp, refl)
  Reply-cases (raised e) = inr (e, refl)

  -- Some call of the provider with the request, for one of its models, raised.
  abbrev pub Failed : Calls F → ChatRequest F → Text → Type 0
  Failed call req name =
      (i : ℕ) × (m : Text) × (e : Text) × (call i name (record req { model = m }) ≡ raised e)

module _ {F : Type 0} ⦃d : Double F⦄ where
  -- An answer of a registered provider of the chain to the request, for the first of its models, as
  -- the reply under the name of that provider. The providers in front of it are not registered or have
  -- failed.
  pub record IsAnswer (reg : Registry) (call : Calls F) (chain : List Text) (req : ChatRequest F)
      (reply : Option (ChatResponse F)) : Type 0 where
    pub name : Text
    pub before : List Text
    pub after : List Text
    pub split : chain ≡ before ++ (name ∷ after)
    pub skipped : All (λ other. (find_provider other reg ≡ none) ⊎ Failed call req other) before
    pub provider : Provider
    pub found : find_provider name reg ≡ some provider
    pub model : Text
    pub first : first_model (supported_models provider.kind) ≡ model
    pub call_no : ℕ
    pub resp : ChatResponse F
    pub answer : call call_no name (record req { model = model }) ≡ answered resp
    pub replied : reply ≡ some (record resp { provider = name })

  -- What the fallbacks come to: an answer of a provider of the chain, or none, and every registered
  -- provider of the chain has failed.
  FromChain : Registry → Calls F → List Text → ChatRequest F → Option (ChatResponse F) → Type 0
  FromChain reg call chain req reply =
      IsAnswer reg call chain req reply
      ⊎ ((reply ≡ none)
          × All (λ name. (find_provider name reg ≡ none) ⊎ Failed call req name) chain)

  FromChain-later :
      (reg : Registry) (call : Calls F) (name : Text) (chain : List Text) (req : ChatRequest F)
      (reply : Option (ChatResponse F))
      → ((find_provider name reg ≡ none) ⊎ Failed call req name)
      → FromChain reg call chain req reply
      → FromChain reg call (name ∷ chain) req reply
  unfolding FromChain
  FromChain-later reg call name chain req reply h (inl a) = inl (record {
    name = a.name;
    before = name ∷ a.before;
    after = a.after;
    split = ap (λ (l : List Text). name ∷ l) a.split;
    skipped = (h, a.skipped);
    provider = a.provider;
    found = a.found;
    model = a.model;
    first = a.first;
    call_no = a.call_no;
    resp = a.resp;
    answer = a.answer;
    replied = a.replied;
  })
  FromChain-later reg call name chain req reply h (inr (e, all)) = inr (e, (h, all))

  -- The three things that can happen to the first fallback.
  try_fallbacks_missing :
      (w : World) (reg : Registry) (call : Calls F) (i : ℕ) (name : Text) (chain : List Text)
      (req : ChatRequest F) (r : Router F)
      → find_provider name reg ≡ none
      → try_fallbacks w reg call i (name ∷ chain) req r ≡ try_fallbacks w reg call i chain req r
  unfolding try_fallbacks
  try_fallbacks_missing w reg call i name chain req r e = rw (e, try_fallbacks) refl

  try_fallbacks_answered :
      (w : World) (reg : Registry) (call : Calls F) (i : ℕ) (name : Text) (chain : List Text)
      (req : ChatRequest F) (r : Router F) (p : Provider) (m : Text) (ms : List Text)
      (resp : ChatResponse F)
      → find_provider name reg ≡ some p
      → supported_models p.kind ≡ m ∷ ms
      → call i name (record req { model = m }) ≡ answered resp
      → (try_fallbacks w reg call i (name ∷ chain) req r).1 ≡ some (record resp { provider = name })
  unfolding try_fallbacks
  try_fallbacks_answered w reg call i name chain req r p m ms resp found models ok =
      rw (found, models, ok, try_fallbacks) refl

  try_fallbacks_raised :
      (w : World) (reg : Registry) (call : Calls F) (i : ℕ) (name : Text) (chain : List Text)
      (req : ChatRequest F) (r : Router F) (p : Provider) (m : Text) (ms : List Text) (e : Text)
      → find_provider name reg ≡ some p
      → supported_models p.kind ≡ m ∷ ms
      → call i name (record req { model = m }) ≡ raised e
      → try_fallbacks w reg call i (name ∷ chain) req r
        ≡ try_fallbacks w reg call
            (suc i)
            chain
            (record req { model = m })
            (report_failure (w.reported i) name r)
  unfolding try_fallbacks
  try_fallbacks_raised w reg call i name chain req r p m ms e found models bad =
      rw (found, models, bad, try_fallbacks) refl

  try_fallbacks-FromChain :
      (w : World) (reg : Registry) (call : Calls F) (i : ℕ) (chain : List Text) (model : Text)
      (req : ChatRequest F) (r : Router F)
      → FromChain reg call chain req
          (try_fallbacks w reg call i chain (record req { model = model }) r).1
  unfolding try_fallbacks FromChain first_model
  try_fallbacks-FromChain w reg call i [] model req r = inr (refl, tt)
  try_fallbacks-FromChain w reg call i (name ∷ chain) model req r =
      let req' = record req { model = model } in
      elim (Option-cases (find_provider name reg)) [
        | inl missing ↦
            subst (λ x. FromChain reg call (name ∷ chain) req x.1)
              (sym (try_fallbacks_missing w reg call i name chain req' r missing))
              (FromChain-later reg call name chain req _ (inl missing)
                (try_fallbacks-FromChain w reg call i chain model req r))
        | inr (p, found) ↦
            let (m, ms, models) = supported_models-some p.kind in
            elim (Reply-cases (call i name (record req { model = m }))) [
              | inl (resp, ok) ↦ inl (record {
                name = name;
                before = [];
                after = chain;
                split = refl;
                skipped = tt;
                provider = p;
                found = found;
                model = m;
                first = ap first_model models;
                call_no = i;
                resp = resp;
                answer = ok;
                replied =
                    try_fallbacks_answered w reg call i name chain req' r p m ms resp found models
                      ok;
              })
              | inr (e, bad) ↦
                  subst (λ x. FromChain reg call (name ∷ chain) req x.1)
                    (sym (
                      try_fallbacks_raised w reg call i name chain req' r p m ms e found models
                        bad))
                    (FromChain-later reg call name chain req _ (inr (i, m, e, bad)) (
                      try_fallbacks-FromChain w reg call (suc i) chain m req
                        (report_failure (w.reported i) name r)))
            ]
      ]

  -- The provider that was chosen answers, and its answer is the reply; or it raises, and then either
  -- the reply is the answer that a registered provider of the fallback chain gave to the request, for
  -- the first of its models, under the name of that provider, and every registered provider in front
  -- of it in the chain has raised, or there is no reply and every registered provider of the chain has
  -- raised.
  pub call_providers_lem :
      (w : World) (reg : Registry) (call : Calls F) (req : ChatRequest F) (dec : RouteDecision F)
      (r : Router F)
      → let reply = (call_providers w reg call req dec r).1 in
        let first = call 0 dec.provider (record req { model = dec.model }) in
        ((resp : ChatResponse F) × (first ≡ answered resp) × (reply ≡ some resp))
        ⊎ (((e : Text) × (first ≡ raised e))
            × (IsAnswer reg call dec.fallback_chain req reply
                ⊎ ((reply ≡ none)
                    × All
                        (λ name. (find_provider name reg ≡ none) ⊎ Failed call req name)
                        dec.fallback_chain)))
  unfolding call_providers FromChain
  call_providers_lem w reg call req dec r =
      elim (Reply-cases (call 0 dec.provider (record req { model = dec.model }))) [
        | inl (resp, ok) ↦ inl (resp, ok, rw (ok, call_providers) refl)
        | inr (e, bad) ↦ inr (
          (e, bad),
          rw (bad, call_providers)
              (try_fallbacks-FromChain w reg call 1 dec.fallback_chain dec.model req
                (report_failure (w.reported 0) dec.provider r)),
        )
      ]

  -- What a request has stored answers the next request with the same key, until its time to live
  -- has passed, whatever the providers would reply: the response is the stored one, marked as
  -- cached, at no latency, and neither the router nor the books of cost hear of it. The cache is
  -- enabled, its index and list agree, it may hold an entry, the request that stores is no stream,
  -- and the fuel is beyond the number of entries.
  pub finish-look_up :
      (fuel fuel' looked_up accessed : ℕ) (w : World) (cfg : GatewayConfig F) (reg : Registry)
      (call : Calls F) (req again : ChatRequest F) (dec : RouteDecision F) (answer : ChatResponse F)
      (g : Gateway F)
      → cfg.cache.enabled ≡ true
      → req.stream ≡ false
      → 0 < to_size_t cfg.cache.max_entries
      → length g.cache.entries < fuel
      → IsValid g.cache
      → make_key w.hash cfg.cache again ≡ make_key w.hash cfg.cache req
      → pos looked_up ≤ℤ pos w.stored +ℤ cfg.cache.ttl_seconds *ℤ pos second
      → (g' g'' : Gateway F) × (resp : ChatResponse F) × (finish fuel w cfg req dec answer g
          ≡ some (g', miss resp dec.strategy_used))
        × (look_up fuel'
              (record w { looked_up = looked_up; accessed = accessed })
              cfg
              reg
              call
              again
              g'
            ≡ some (
              g'',
              hit (record resp {
                from_cache = true;
                request_id = again.request_id;
                latency_ms = d.of_int (pos 0);
              }),
            ))
        × (g''.router ≡ g'.router)
        × (g''.costs ≡ g'.costs)
  unfolding finish book look_up
  finish-look_up fuel fuel' looked_up accessed w cfg reg call req again dec answer g on plain room
        enough v same fresh =
      let resp = charged g.costs req answer in
      let (c, c', stored_as, read) =
        get-put w.hash fuel cfg.cache req again resp w.tidied w.stored looked_up accessed g.cache on
          plain room enough v same fresh in
      let g' = record (book w cfg req resp g) { cache = c } in
      let g'' = record g' { cache = c'; metrics = inc_cache_hits g'.metrics } in
      (g', g'', resp, rw (stored_as, finish) refl, rw (read, look_up) refl, refl, refl)
