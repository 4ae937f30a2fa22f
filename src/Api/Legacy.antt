-- ===== src/Api/Legacy.antt =====
-- The endpoint /chat of src/api/chat_completions.cpp, which takes a prompt.
use cost_optimized_llm_infer.Common.{
  ℕ, true, false, [], ◌∷◌, Option, none, some, Text, codes, is_empty, pos, Double, if◌then◌else◌,
}
use cost_optimized_llm_infer.Types.{ChatRequest}
use cost_optimized_llm_infer.Json.{Json, value}
use cost_optimized_llm_infer.Cache.{get, put}
use cost_optimized_llm_infer.Config.{GatewayConfig}
use cost_optimized_llm_infer.Router.Dispatch.{route}
use cost_optimized_llm_infer.Providers.{Registry, answered, raised, find_provider}
use cost_optimized_llm_infer.Chat.{Gateway, World, Calls}
use cost_optimized_llm_infer.Api.{Response, json_response, make_error}
use cost_optimized_llm_infer.Api.Completions.{invalid_request}

module _ {F : Type 0} ⦃d : Double F⦄ where
  unfoldable pub prompt_request : (req_id prompt : Text) → ChatRequest F
  prompt_request req_id prompt = record {
    request_id = req_id;
    api_key = [];
    model = codes "gpt-4o-mini";
    messages = record { role = codes "user"; content = prompt } ∷ [];
    temperature = d.lit 7 1;
    max_tokens = pos 1024;
    stream = false;
    user = none;
  }

module _ {F J : Type 0} ⦃d : Double F⦄ ⦃j : Json J⦄ where
  open j use {string, boolean, object, get_text}

  -- The only call of a provider; the outer `none` is that of `put`.
  unfoldable pub legacy_call :
      ℕ
      → World
      → GatewayConfig F
      → Calls F
      → ChatRequest F
      → (provider model : Text) → Gateway F
      → Option (Gateway F × Response J)
  legacy_call fuel w cfg call req provider model g =
      elim (call 0 provider (record req { model = model })) [
        | raised e ↦ some (g, make_error 502 e invalid_request)
        | answered resp ↦ elim (put w.hash fuel cfg.cache req resp w.tidied w.stored g.cache) [
          | none ↦ none
          | some c ↦ some (
            record g { cache = c },
            json_response 200 (
                object (
                  (codes "response", string resp.content)
                  ∷ (codes "provider", string resp.provider)
                  ∷ (codes "model", string resp.model)
                  ∷ (codes "cached", boolean false)
                  ∷ [])),
          )
        ]
      ]

  -- From the cache on; the outer `none` is that of `get`, `route` and `put`.
  unfoldable pub legacy_serve :
      ℕ
      → World
      → GatewayConfig F
      → Registry
      → Calls F
      → ChatRequest F
      → Gateway F
      → Option (Gateway F × Response J)
  legacy_serve fuel w cfg reg call req g =
      elim (get w.hash cfg.cache req w.looked_up w.accessed g.cache) [
        | none ↦ none
        | some (c, cached) ↦ elim cached [
          | some resp ↦ some (
            record g { cache = c },
            json_response 200 (
                object
                  ((codes "response", string resp.content) ∷ (codes "cached", boolean true) ∷ [])),
          )
          | none ↦ elim (route req cfg g.router) [
            | none ↦ none
            | some (dec, r) ↦
                let g' = record g { cache = c; router = r } in
                elim (find_provider dec.provider reg) [
                  | none ↦
                      some (g', make_error 503 (codes "No providers available") invalid_request)
                  | some p ↦ legacy_call fuel w cfg call req dec.provider dec.model g'
                ]
          ]
        ]
      ]

  -- The handler; the inner `none` is an exception of the JSON library.
  unfoldable pub legacy :
      ℕ
      → World
      → GatewayConfig F
      → Registry
      → Calls F
      → (req_id : Text) → Option J
      → Gateway F
      → Option (Gateway F × Option (Response J))
  legacy fuel w cfg reg call req_id body g = elim body [
    | none ↦ some (g, some (make_error 400 (codes "Invalid JSON") invalid_request))
    | some b ↦ elim (value get_text (codes "prompt") [] b) [
      | none ↦ some (g, none)
      | some prompt ↦
          if is_empty prompt
          then some (g, some (make_error 400 (codes "prompt is required") invalid_request))
          else elim (legacy_serve fuel w cfg reg call (prompt_request req_id prompt) g) [
            | none ↦ none
            | some (g', resp) ↦ some (g', some resp)
          ]
    ]
  ]
