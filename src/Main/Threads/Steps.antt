-- ===== src/Main/Threads/Steps.antt =====
-- The steps of the service as sequences of operations.
use cost_optimized_llm_infer.Common.{
  Text, codes, is_empty, Option, none, some, [], Double, Bool-cases, Option-cases, inl, inr,
}
use mathlib.Core.Path.{subst}
use cost_optimized_llm_infer.Types.{ChatRequest}
use cost_optimized_llm_infer.Json.{Json, JsonDouble, value}
use cost_optimized_llm_infer.Cache.{get, put}
use cost_optimized_llm_infer.Config.{GatewayConfig}
use cost_optimized_llm_infer.Router.Dispatch.{route}
use cost_optimized_llm_infer.Providers.{Registry, find_provider}
use cost_optimized_llm_infer.Chat.{Gateway, World, Calls, handle}
use cost_optimized_llm_infer.Api.{Service}
use cost_optimized_llm_infer.Api.Changes.{administer_ind}
use cost_optimized_llm_infer.Api.Completions.{parse_request, complete}
use cost_optimized_llm_infer.Chat.Answers.{Reply-cases}
use cost_optimized_llm_infer.Api.Legacy.{prompt_request, legacy_call, legacy_serve, legacy}
use cost_optimized_llm_infer.Main.Runs.{enough_fuel, Step, completed, prompted, administered}
use cost_optimized_llm_infer.Main.Threads.{
  counted, stored, cleared, routed, switched, Operated, idle, next,
}
use cost_optimized_llm_infer.Main.Threads.Handlers.{Runs, get-Operated, handle-Runs}

module _ {F : Type 0} (J : Type 0) ⦃d : Double F⦄ ⦃j : Json J⦄ (w : World) (cfg : GatewayConfig F)
    (start : Gateway F) where
  legacy_call-Runs :
      (call : Calls F) (req : ChatRequest F) (provider model : Text) (g : Gateway F)
      → Operated cfg start g
      → Runs w cfg start (legacy_call {J = J} (enough_fuel cfg) w cfg call req provider model g)
  unfolding legacy_call
  legacy_call-Runs call req provider model g o =
      elim (Reply-cases (call 0 provider (record req { model = model }))) [
        | inr (e, fails) ↦ rw (fails, legacy_call) o
        | inl (resp, replied) ↦
            elim (Option-cases
              (put w.hash (enough_fuel cfg) cfg.cache req resp w.tidied w.stored g.cache)) [
                | inl endless ↦ rw (replied, endless, legacy_call) tt
                | inr (c, kept) ↦
                    rw (replied, kept, legacy_call)
                      (next o (stored w.hash req resp w.tidied w.stored kept))
              ]
      ]

  legacy_serve-Runs :
      (reg : Registry) (call : Calls F) (req : ChatRequest F) (g : Gateway F)
      → Operated cfg start g
      → Runs w cfg start (legacy_serve {J = J} (enough_fuel cfg) w cfg reg call req g)
  unfolding legacy_serve
  legacy_serve-Runs reg call req g o =
      elim (Option-cases (get w.hash cfg.cache req w.looked_up w.accessed g.cache)) [
        | inl dangling ↦ rw (dangling, legacy_serve) tt
        | inr ((c, cached), found) ↦
            let after = get-Operated w cfg start req g c cached found o in
            elim (Option-cases cached) [
              | inr (resp, e) ↦ rw (found, e, legacy_serve) after
              | inl e ↦ elim (Option-cases (route req cfg g.router)) [
                | inl outside ↦ rw (found, e, outside, legacy_serve) tt
                | inr ((dec, r), decided) ↦
                    let behind = next after (routed req decided) in
                    elim (Option-cases (find_provider dec.provider reg)) [
                      | inl missing ↦ rw (found, e, decided, missing, legacy_serve) behind
                      | inr (p, known) ↦
                          rw (found, e, decided, known, legacy_serve)
                            (legacy_call-Runs call req dec.provider dec.model
                              (record g { cache = c; router = r }) behind)
                    ]
              ]
            ]
      ]

  legacy-Runs :
      (reg : Registry) (call : Calls F) (req_id : Text) (body : Option J) (g : Gateway F)
      → Operated cfg start g
      → Runs w cfg start (legacy {J = J} (enough_fuel cfg) w cfg reg call req_id body g)
  unfolding legacy
  legacy-Runs reg call req_id none g o = o
  legacy-Runs reg call req_id (some b) g o =
      elim (Option-cases (value j.get_text (codes "prompt") [] b)) [
        | inl e ↦ rw (e, legacy) o
        | inr (prompt, e) ↦ elim (Bool-cases (is_empty prompt)) [
          | inl nothing ↦ rw (e, nothing, legacy) o
          | inr asked ↦
              let req = prompt_request req_id prompt in
              let served = legacy_serve-Runs reg call req g o in
              elim (Option-cases (legacy_serve {J = J} (enough_fuel cfg) w cfg reg call req g)) [
                | inl endless ↦ rw (e, asked, endless, legacy) tt
                | inr (out, ended) ↦
                    rw (e, asked, ended, legacy) (subst (Runs w cfg start) ended served)
              ]
        ]
      ]

  module _ ⦃n : JsonDouble F J⦄ where
    complete-Runs :
        (reg : Registry) (call : Calls F) (req_id header : Text) (body : Option J) (g : Gateway F)
        → Operated cfg start g
        → Runs w cfg start (complete {J = J} (enough_fuel cfg) w cfg reg call req_id header body g)
    unfolding complete
    complete-Runs reg call req_id header none g o = next o counted
    complete-Runs reg call req_id header (some b) g o =
        elim (Option-cases (parse_request {F = F} ⦃n = n⦄ req_id header b)) [
          | inl e ↦ rw (e, complete) (next o counted)
          | inr (req, e) ↦
              let handled = handle-Runs w cfg start reg call req g o in
              elim (Option-cases (handle (enough_fuel cfg) w cfg reg call req g)) [
                | inl endless ↦ rw (e, endless, complete) tt
                | inr (out, ended) ↦
                    rw (e, ended, complete) (subst (Runs w cfg start) ended handled)
              ]
        ]

module _ {F J : Type 0} ⦃d : Double F⦄ ⦃j : Json J⦄ ⦃n : JsonDouble F J⦄
    (cfg : GatewayConfig F) where
  -- Every handler that changes the state of the gateway, whatever it answers, makes its change by the
  -- operations of the singletons one after the other.
  pub Step-Operated : {s t : Service F} → Step J cfg s t → Operated cfg s.gateway t.gateway
  Step-Operated {s} (completed w call req_id header body {g} {resp} ran) =
      subst (Runs w cfg s.gateway) ran
        (complete-Runs J w cfg s.gateway s.registry call req_id header body s.gateway idle)
  Step-Operated {s} (prompted w call req_id body {g} {resp} ran) =
      subst (Runs w cfg s.gateway) ran
        (legacy-Runs J w cfg s.gateway s.registry call req_id body s.gateway idle)
  Step-Operated {s} (administered auth req) =
      administer_ind (λ x. Operated cfg s.gateway x.gateway) s
        (record {
          same = idle;
          created = λ hash draws owner tier now. idle;
          revoked = λ key_id. idle;
          switched = λ st. next idle (switched st);
          cleared = next idle cleared;
        })
        cfg.server.admin_key auth req
