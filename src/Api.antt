-- ===== src/Api.antt =====
-- src/api: what the handlers answer. Crow, the HTTP server, answers a handler that throws with the
-- status 500; here the handler gives `none` for its response, beside the state that it leaves.
pub mod Completions
pub mod Legacy
pub mod Admin
pub mod Pages
pub mod Changes
pub mod Guards
pub mod Compatible
pub mod Answers
pub mod Endings
pub mod Schema
pub mod Identifiers
pub mod Uncharged
pub mod Reports
use cost_optimized_llm_infer.Common.{ℕ, List, [], ◌∷◌, Text, codes, pos}
use cost_optimized_llm_infer.Json.{Json}
use cost_optimized_llm_infer.Auth.{Keys}
use cost_optimized_llm_infer.Providers.{Registry}
use cost_optimized_llm_infer.Chat.{Gateway}

-- A response; `body` is the value whose text is sent.
pub record Response (J : Type 0) : Type 0 where
  pub status : ℕ
  pub headers : List (Text × Text)
  pub body : J

-- The singletons of the service: those of the handler of completions, the keys and the registry.
pub record Service (F : Type 0) : Type 0 where
  pub keys : Keys F
  pub gateway : Gateway F
  pub registry : Registry

abbrev pub json_type : List (Text × Text)
json_type = (codes "Content-Type", codes "application/json") ∷ []

module _ {J : Type 0} ⦃j : Json J⦄ where
  open j use {string, integer, object}

  unfoldable pub json_response : ℕ → J → Response J
  json_response status body = record { status = status; headers = json_type; body = body }

  -- `make_error` of src/api/chat_completions.cpp.
  unfoldable pub make_error : (status : ℕ) → (message type : Text) → Response J
  make_error status message type = json_response status (
      object (
        (
          codes "error",
          object (
              (codes "message", string message)
              ∷ (codes "type", string type)
              ∷ (codes "code", integer (pos status))
              ∷ []),
        )
        ∷ []))

  -- `admin_error` of src/api/admin.cpp.
  unfoldable pub admin_error : Text → Response J
  admin_error msg = json_response 403 (object ((codes "error", string msg) ∷ []))

  -- The answer of the administration to a body that is no JSON.
  unfoldable pub invalid_json : Response J
  invalid_json = json_response 400 (object ((codes "error", string (codes "Invalid JSON")) ∷ []))
