-- ===== src/Main/Runs.antt =====
-- The states that the service goes through, one handler after the other: those of
-- src/api/chat_completions.cpp and src/api/admin.cpp, from what src/main.cpp sets up.
use cost_optimized_llm_infer.Common.{
  ℕ, suc, ◌<◌, Option, some, Text, ◌≡◌, ◌∙◌, sym, pos, Double, arith,
}
use mathlib.Core.Option.{some-injective}
use mathlib.Core.Path.{subst}
use cost_optimized_llm_infer.Json.{Json, JsonDouble}
use cost_optimized_llm_infer.Cache.{init, clear, to_size_t}
use cost_optimized_llm_infer.Cache.Invariant.{IsLinked-nil}
use cost_optimized_llm_infer.CostTracker
use cost_optimized_llm_infer.CostTracker.{get_summary}
use cost_optimized_llm_infer.Config.{GatewayConfig}
use cost_optimized_llm_infer.Chat.{Gateway, World, Calls}
use cost_optimized_llm_infer.Chat.Books.{get_summary-cached}
use cost_optimized_llm_infer.Chat.Totality.{IsSound}
use cost_optimized_llm_infer.Api.{Response, Service}
use cost_optimized_llm_infer.Api.Completions.{complete}
use cost_optimized_llm_infer.Api.Legacy.{legacy}
use cost_optimized_llm_infer.Api.Admin.{AdminRequest, administer}
use cost_optimized_llm_infer.Api.Changes.{administer_ind}
use cost_optimized_llm_infer.Api.Endings.{legacy_total, complete_total}
use cost_optimized_llm_infer.Main.{set_up}

-- Fuel for the loop of the cache.
abbrev pub enough_fuel : {F : Type 0} → GatewayConfig F → ℕ
enough_fuel cfg = suc (to_size_t cfg.cache.max_entries)

module _ {F : Type 0} (J : Type 0) ⦃d : Double F⦄ ⦃j : Json J⦄ ⦃n : JsonDouble F J⦄
    (cfg : GatewayConfig F) where
  -- A handler runs. What the world, the providers and the client bring is its own for every step.
  pub data Step (s : Service F) : Service F → Type 0 where
    completed :
        (w : World) (call : Calls F) (req_id header : Text) (body : Option J) {g : Gateway F}
        {resp : Option (Response J)}
        → complete (enough_fuel cfg) w cfg s.registry call req_id header body s.gateway
          ≡ some (g, resp)
        → Step s (record s { gateway = g })
    prompted :
        (w : World) (call : Calls F) (req_id : Text) (body : Option J) {g : Gateway F}
        {resp : Option (Response J)}
        → legacy (enough_fuel cfg) w cfg s.registry call req_id body s.gateway ≡ some (g, resp)
        → Step s (record s { gateway = g })
    administered :
        (auth : Text) (req : AdminRequest J) → Step s (administer cfg.server.admin_key auth req s).0

  pub data Reach (now : ℕ) : Service F → Type 0 where
    start : Reach now (set_up now cfg)
    later : {s t : Service F} → Reach now s → Step s t → Reach now t

module _ {F : Type 0} ⦃d : Double F⦄ (cfg : GatewayConfig F) where
  set_up-IsSound : (now : ℕ) → IsSound cfg.cache (set_up now cfg).gateway
  unfolding set_up init CostTracker.init
  set_up-IsSound now = record { cache = IsLinked-nil 0; few = omega arith; history = tt }

module _ {F J : Type 0} ⦃d : Double F⦄ ⦃j : Json J⦄ ⦃n : JsonDouble F J⦄
    (cfg : GatewayConfig F) where
  administer-IsSound :
      (auth : Text) (req : AdminRequest J) (s : Service F)
      → IsSound cfg.cache s.gateway
      → IsSound cfg.cache (administer cfg.server.admin_key auth req s).0.gateway
  unfolding clear
  administer-IsSound auth req s h =
      administer_ind (λ x. IsSound cfg.cache x.gateway) s
        (record {
          same = h;
          created = λ hash draws owner tier now. h;
          revoked = λ key_id. h;
          switched = λ st. record { cache = h.cache; few = h.few; history = h.history };
          cleared = record {
            cache = IsLinked-nil s.gateway.cache.next_node;
            few = omega arith;
            history = h.history;
          };
        })
        cfg.server.admin_key auth req

  module _ (room : 0 < to_size_t cfg.cache.max_entries) where
    Step-IsSound :
        {s t : Service F}
        → Step J cfg s t
        → IsSound cfg.cache s.gateway
        → IsSound cfg.cache t.gateway
    Step-IsSound {s} (completed w call req_id header body {g} {resp} ran) h =
        let (out, ended, sound) =
          complete_total (enough_fuel cfg) w cfg room s.registry call req_id header body s.gateway h
            (omega (arith, h.few)) in
        subst (λ (x : Gateway F × Option (Response J)). IsSound cfg.cache x.0)
          (some-injective out (g, resp) (sym ended ∙ ran)) sound
    Step-IsSound {s} (prompted w call req_id body {g} {resp} ran) h =
        let (out, ended, sound, _, _, _) =
          legacy_total (enough_fuel cfg) w cfg room s.registry call req_id body s.gateway h
            (omega (arith, h.few)) in
        subst (λ (x : Gateway F × Option (Response J)). IsSound cfg.cache x.0)
          (some-injective out (g, resp) (sym ended ∙ ran)) sound
    Step-IsSound {s} (administered auth req) h = administer-IsSound auth req s h

    -- Whatever was asked of the service since its start, in any order and whatever the providers
    -- replied, the index and the list of the cache agree, the cache holds no more entries than it may,
    -- and no record of the history is a hit. The cache may hold an entry.
    pub Reach-IsSound : (now : ℕ) {s : Service F} → Reach J cfg now s → IsSound cfg.cache s.gateway
    Reach-IsSound now start = set_up-IsSound cfg now
    Reach-IsSound now (later r st) = Step-IsSound st (Reach-IsSound now r)

    -- In every state that the service reaches, where the cache may hold an entry, the handlers of
    -- completions and of prompts end, with one round of fuel more than the cache may hold entries,
    -- and the summary of the spend of any key counts no request that was answered from the cache.
    pub Reach-answers :
        (now : ℕ) {s : Service F} (w : World) (call : Calls F) (req_id header key : Text)
        (body : Option J)
        → Reach J cfg now s
        → ((out : Gateway F × Option (Response J)) × (complete
                (enough_fuel cfg)
                w
                cfg
                s.registry
                call
                req_id
                header
                body
                s.gateway
              ≡ some out))
          × ((out : Gateway F × Option (Response J)) × (legacy
                  (enough_fuel cfg)
                  w
                  cfg
                  s.registry
                  call
                  req_id
                  body
                  s.gateway
                ≡ some out))
          × ((get_summary key s.gateway.costs).cached_requests ≡ pos 0)
    Reach-answers now {s} w call req_id header key body r =
        let h = Reach-IsSound now r in
        let (out, ended, _) =
          complete_total (enough_fuel cfg) w cfg room s.registry call req_id header body s.gateway h
            (omega (arith, h.few)) in
        let (out', ended', _, _, _, _) =
          legacy_total (enough_fuel cfg) w cfg room s.registry call req_id body s.gateway h
            (omega (arith, h.few)) in
        ((out, ended), (out', ended'), get_summary-cached key s.gateway.costs h.history)
