-- ===== src/Api/Completions.antt =====
-- src/api/chat_completions.cpp: the request that is read from a body, and the responses. The body
-- comes as the result of `json::parse`; an exception of the JSON library is `none`.
use cost_optimized_llm_infer.Common.{
  ℕ, false, not, ◌||◌, List, [], ◌∷◌, ◌++◌, Option, none, some, Text, codes, pos, show_ℤ, Double,
  if◌then◌else◌, ◌>>=◌, traverse,
}
use cost_optimized_llm_infer.Types.{
  Message, ChatRequest, ChatResponse, RoutingStrategy, strategy_to_string,
}
use cost_optimized_llm_infer.Json.{Json, JsonDouble, value}
use cost_optimized_llm_infer.Metrics.{inc_requests}
use cost_optimized_llm_infer.Config.{GatewayConfig}
use cost_optimized_llm_infer.Providers.{Registry}
use cost_optimized_llm_infer.RateLimiter.{Result}
use cost_optimized_llm_infer.Chat.{Gateway, World, Calls, Outcome, handle}
use cost_optimized_llm_infer.Chat.Outcome.{
  no_messages, limited, hit, no_providers, not_available, all_failed, miss,
}
use cost_optimized_llm_infer.Api.{Response, json_type, make_error}

abbrev pub invalid_request : Text
invalid_request = codes "invalid_request_error"

module _ {J : Type 0} ⦃j : Json J⦄ where
  open j use {
    string, integer, boolean, array, object, empty, find, items, is_array, get_text, get_int,
    get_bool,
  }

  unfoldable pub parse_message : J → Option Message
  parse_message m = do
    role ← value get_text (codes "role") (codes "user") m
    content ← value get_text (codes "content") [] m
    some (record { role = role; content = content })

  -- The messages; none for a body that is refused for want of them.
  unfoldable pub parse_messages : J → Option (List Message)
  parse_messages body = elim (find (codes "messages") body) [
    | none ↦ some []
    | some messages ↦
        if not (is_array messages) || empty messages
        then some []
        else traverse parse_message (items messages)
  ]

  unfoldable pub parse_user : J → Option (Option Text)
  parse_user body = elim (find (codes "user") body) [
    | none ↦ some none
    | some user ↦ get_text user >>= λ u. some (some u)
  ]

  -- The response that quotes an answer; `usage` and `choices` are OpenAI's.
  unfoldable pub completion_json :
      {F : Type 0} → (req_id : Text) → ChatResponse F → (x_gateway : List (Text × J)) → J
  completion_json req_id resp x_gateway = object (
      (codes "id", string req_id)
      ∷ (codes "object", string (codes "chat.completion"))
      ∷ (codes "model", string resp.model)
      ∷ (
        codes "choices",
        array (
            object (
              (codes "index", integer (pos 0))
              ∷ (
                codes "message",
                object (
                    (codes "role", string (codes "assistant"))
                    ∷ (codes "content", string resp.content)
                    ∷ []),
              )
              ∷ (codes "finish_reason", string (codes "stop"))
              ∷ [])
            ∷ []),
      )
      ∷ (
        codes "usage",
        object (
            (codes "prompt_tokens", integer resp.prompt_tokens)
            ∷ (codes "completion_tokens", integer resp.completion_tokens)
            ∷ (codes "total_tokens", integer resp.total_tokens)
            ∷ []),
      )
      ∷ (codes "x_gateway", object x_gateway)
      ∷ [])

  unfoldable pub limited_response : Result → Response J
  limited_response r =
      let refusal = make_error 429 (codes "Rate limit exceeded") invalid_request in
      record refusal {
        headers =
            refusal.headers
            ++ ((codes "Retry-After", show_ℤ r.retry_after_sec)
                ∷ (codes "X-RateLimit-Remaining-Requests", show_ℤ r.remaining_rpm)
                ∷ (codes "X-RateLimit-Remaining-Tokens", show_ℤ r.remaining_tpm)
                ∷ []);
      }

  module _ {F : Type 0} ⦃d : Double F⦄ ⦃n : JsonDouble F J⦄ where
    open n use {number, get_double}

    unfoldable pub parse_request : (req_id header : Text) → J → Option (ChatRequest F)
    parse_request req_id header body = do
      model ← value get_text (codes "model") (codes "gpt-4o-mini") body
      temperature ← value get_double (codes "temperature") (d.lit 7 1) body
      max_tokens ← value get_int (codes "max_tokens") (pos 1024) body
      stream ← value get_bool (codes "stream") false body
      user ← parse_user body
      messages ← parse_messages body
      some (record {
        request_id = req_id;
        api_key = header;
        model = model;
        messages = messages;
        temperature = temperature;
        max_tokens = max_tokens;
        stream = stream;
        user = user;
      })

    unfoldable pub hit_response : (req_id : Text) → ChatResponse F → Response J
    hit_response req_id resp = record {
      status = 200;
      headers = json_type ++ ((codes "X-Gateway-Cache", codes "HIT") ∷ []);
      body = completion_json req_id resp (
          (codes "provider", string resp.provider)
          ∷ (codes "cache", string (codes "hit"))
          ∷ (codes "latency_ms", integer (pos 0))
          ∷ (codes "cost_usd", integer (pos 0))
          ∷ []);
    }

    unfoldable pub miss_response : (req_id : Text) → ChatResponse F → RoutingStrategy → Response J
    miss_response req_id resp strategy = record {
      status = 200;
      headers =
          json_type
          ++ ((codes "X-Gateway-Cache", codes "MISS")
              ∷ (codes "X-Gateway-Provider", resp.provider)
              ∷ (codes "X-Gateway-Latency-Ms", show_ℤ (d.to_int resp.latency_ms))
              ∷ []);
      body = completion_json req_id resp (
          (codes "provider", string resp.provider)
          ∷ (codes "cache", string (codes "miss"))
          ∷ (codes "latency_ms", number resp.latency_ms)
          ∷ (codes "cost_usd", number resp.cost_usd)
          ∷ (codes "routing_strategy", string (strategy_to_string strategy))
          ∷ []);
    }

    unfoldable pub render : (req_id : Text) → Outcome F → Response J
    render req_id no_messages =
        make_error 400 (codes "messages is required and must be a non-empty array") invalid_request
    render req_id (limited r) = limited_response r
    render req_id (hit resp) = hit_response req_id resp
    render req_id (no_providers model) =
        make_error 503 (codes "No available providers for model: " ++ model) invalid_request
    render req_id (not_available provider) =
        make_error 503 (codes "Provider not available: " ++ provider) invalid_request
    render req_id (all_failed model) =
        make_error 502 (codes "All providers failed for model: " ++ model) invalid_request
    render req_id (miss resp strategy) = miss_response req_id resp strategy

    -- The handler from the body on. The outer `none` is that of `handle`.
    unfoldable pub complete :
        ℕ
        → World
        → GatewayConfig F
        → Registry
        → Calls F
        → (req_id header : Text) → Option J
        → Gateway F
        → Option (Gateway F × Option (Response J))
    complete fuel w cfg reg call req_id header body g = elim body [
      | none ↦ some (
        record g { metrics = inc_requests g.metrics },
        some (make_error 400 (codes "Invalid JSON body") invalid_request),
      )
      | some b ↦ elim (parse_request req_id header b) [
        | none ↦ some (record g { metrics = inc_requests g.metrics }, none)
        | some req ↦ elim (handle fuel w cfg reg call req g) [
          | none ↦ none
          | some (g', outcome) ↦ some (g', some (render req_id outcome))
        ]
      ]
    ]
