-- ===== src/Api/Endings.antt =====
-- The ends of the handlers of chat_completions.cpp.
use cost_optimized_llm_infer.Common.{
  ℕ, ◌<◌, [], Option, none, some, Text, codes, is_empty, ◌≡◌, refl, Double, arith, Bool-cases,
  Option-cases, inl, inr, length,
}
use cost_optimized_llm_infer.Types.{ChatRequest}
use cost_optimized_llm_infer.Json.{Json, JsonDouble, value}
use cost_optimized_llm_infer.Cache.{CacheConfig, to_size_t}
use cost_optimized_llm_infer.Cache.Reads.{length-get}
use cost_optimized_llm_infer.Config.{GatewayConfig}
use cost_optimized_llm_infer.Router.Ready.{route_total}
use cost_optimized_llm_infer.Providers.{Registry, find_provider}
use cost_optimized_llm_infer.Chat.{Gateway, World, Calls}
use cost_optimized_llm_infer.Chat.Answers.{Reply-cases}
use cost_optimized_llm_infer.Chat.Totality.{IsSound, put_total, handle_total}
use cost_optimized_llm_infer.Api.{Response}
use cost_optimized_llm_infer.Api.Completions.{parse_request, complete}
use cost_optimized_llm_infer.Api.Legacy.{prompt_request, legacy_call, legacy_serve, legacy}

-- A step of the handler of /chat ends, and books nothing.
abbrev Unbooked :
    {F A : Type 0} → ⦃d : Double F⦄ → CacheConfig → Gateway F → Option (Gateway F × A) → Type 0
Unbooked {F} {A} cfg g o =
    (out : Gateway F × A) × (o ≡ some out)
    × IsSound cfg out.0
    × (out.0.limiter ≡ g.limiter)
    × (out.0.costs ≡ g.costs)
    × (out.0.metrics ≡ g.metrics)

module _ {F J : Type 0} ⦃d : Double F⦄ ⦃j : Json J⦄ (fuel : ℕ) (w : World) (cfg : GatewayConfig F)
    (room : 0 < to_size_t cfg.cache.max_entries) where
  legacy_call-Unbooked :
      (call : Calls F) (req : ChatRequest F) (provider model : Text) (g : Gateway F)
      → IsSound cfg.cache g
      → length g.cache.entries < fuel
      → Unbooked cfg.cache g (legacy_call {J = J} fuel w cfg call req provider model g)
  unfolding legacy_call
  legacy_call-Unbooked call req provider model g s enough =
      elim (Reply-cases (call 0 provider (record req { model = model }))) [
        | inr (e, failed) ↦ rw (failed, legacy_call) (_, refl, s, refl, refl, refl)
        | inl (resp, replied) ↦
            let (c, made, v, few) =
              put_total w.hash fuel cfg.cache req resp w.tidied w.stored g.cache room enough s.cache
                s.few in
            rw (replied, legacy_call)
              (rw made
                (_, refl, record { cache = v; few = few; history = s.history }, refl, refl, refl))
      ]

  legacy_serve-Unbooked :
      (reg : Registry) (call : Calls F) (req : ChatRequest F) (g : Gateway F)
      → IsSound cfg.cache g
      → length g.cache.entries < fuel
      → Unbooked cfg.cache g (legacy_serve {J = J} fuel w cfg reg call req g)
  unfolding legacy_serve
  legacy_serve-Unbooked reg call req g s enough =
      let ((c, cached), read, v, few) =
        length-get w.hash cfg.cache req w.looked_up w.accessed g.cache s.cache in
      let sound : IsSound cfg.cache (record g { cache = c }) = record {
        cache = v;
        few = omega (arith, few, s.few);
        history = s.history;
      } in
      elim (Option-cases cached) [
        | inr (resp, e) ↦ rw (read, e, legacy_serve) (_, refl, sound, refl, refl, refl)
        | inl e ↦
            let ((dec, r), routed) = route_total cfg g.router req in
            elim (Option-cases (find_provider dec.provider reg)) [
              | inl missing ↦
                  rw (read, e, routed, missing, legacy_serve)
                    (
                      _,
                      refl,
                      record { cache = v; few = omega (arith, few, s.few); history = s.history },
                      refl,
                      refl,
                      refl,
                    )
              | inr (p, found) ↦
                  rw (read, e, routed, found, legacy_serve)
                    (legacy_call-Unbooked call req dec.provider dec.model
                      (record g { cache = c; router = r })
                      (record { cache = v; few = omega (arith, few, s.few); history = s.history })
                      (omega (arith, few, enough)))
            ]
      ]

  -- With room for an entry, and with fuel beyond the number of entries, the handler of /chat ends with
  -- a response or an exception of the JSON library; whatever it does, the rate limiter, the costs and
  -- the metrics are as before.
  pub legacy_total :
      (reg : Registry) (call : Calls F) (req_id : Text) (body : Option J) (g : Gateway F)
      → IsSound cfg.cache g
      → length g.cache.entries < fuel
      → (out : Gateway F × Option (Response J)) × (legacy fuel w cfg reg call req_id body g
          ≡ some out)
        × IsSound cfg.cache out.0
        × (out.0.limiter ≡ g.limiter)
        × (out.0.costs ≡ g.costs)
        × (out.0.metrics ≡ g.metrics)
  unfolding legacy
  legacy_total reg call req_id none g s enough = (_, refl, s, refl, refl, refl)
  legacy_total reg call req_id (some b) g s enough =
      elim (Option-cases (value j.get_text (codes "prompt") [] b)) [
        | inl e ↦ rw (e, legacy) (_, refl, s, refl, refl, refl)
        | inr (prompt, e) ↦ elim (Bool-cases (is_empty prompt)) [
          | inl nothing ↦ rw (e, nothing, legacy) (_, refl, s, refl, refl, refl)
          | inr asked ↦
              let (out, served, sound, l, c, m) =
                legacy_serve-Unbooked reg call (prompt_request req_id prompt) g s enough in
              rw (e, asked, legacy) (rw served (_, refl, sound, l, c, m))
        ]
      ]

  module _ ⦃n : JsonDouble F J⦄ where
    pub complete_total :
        (reg : Registry) (call : Calls F) (req_id header : Text) (body : Option J) (g : Gateway F)
        → IsSound cfg.cache g
        → length g.cache.entries < fuel
        → (out : Gateway F × Option (Response J)) × (complete fuel w cfg reg call req_id header body
              g
            ≡ some out)
          × IsSound cfg.cache out.0
    unfolding complete
    complete_total reg call req_id header none g s enough =
        (_, refl, record { cache = s.cache; few = s.few; history = s.history })
    complete_total reg call req_id header (some b) g s enough =
        elim (Option-cases (parse_request {F = F} ⦃n = n⦄ req_id header b)) [
          | inl e ↦
              rw (e, complete)
                (_, refl, record { cache = s.cache; few = s.few; history = s.history })
          | inr (req, e) ↦
              let (out, ended, sound) = handle_total fuel w cfg room reg call req g s enough in
              rw (e, complete) (rw ended (_, refl, sound))
        ]
