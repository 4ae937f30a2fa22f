-- ===== src/Providers/Client.antt =====
-- `chat` of the four providers and `BaseProvider::http_post`. What the HTTP client of cpp-httplib
-- answers is a parameter.
use cost_optimized_llm_infer.Common.{
  ℕ, Bool, true, false, List, [], ◌∷◌, ◌++◌, Option, none, some, Text, codes, leb, show_ℕ, ℤ,
  Double, if◌then◌else◌,
}
use cost_optimized_llm_infer.Types.{ChatRequest, ChatResponse}
use cost_optimized_llm_infer.Json.{Json, JsonDouble}
use cost_optimized_llm_infer.Providers.{
  ProviderKind, openai, anthropic, together, groq, Provider, Reply, answered, raised, Retried,
  returned, rethrown, undefined, with_retry, supported_models,
}
use cost_optimized_llm_infer.Providers.Bodies.{
  openai_body, anthropic_body, together_body, groq_body, openai_response, anthropic_response,
  together_response, groq_response,
}

-- What the client answers: an error, or a status and a body.
pub data HttpResult : Type 0 where
  no_answer : (error : Text) → HttpResult
  http_answer : (status : ℕ) → (body : Text) → HttpResult

-- A POST with JSON, whose headers come before `Content-Type`.
pub record HttpPost (J : Type 0) : Type 0 where
  pub url : Text
  pub path : Text
  pub headers : List (Text × Text)
  pub timeout_ms : ℤ
  pub body : J

-- What `http_post` ends with: a value, or an exception with its message.
pub data Posted (J : Type 0) : Type 0 where
  posted : J → Posted J
  post_failed : Text → Posted J

-- The piece of a stream that `chat_stream` emits.
pub record StreamChunk : Type 0 where
  pub delta : Text
  pub done : Bool
  pub prompt_tokens : Option ℤ
  pub completion_tokens : Option ℤ

unfoldable pub chat_path : ProviderKind → Text
chat_path openai = codes "/v1/chat/completions"
chat_path anthropic = codes "/v1/messages"
chat_path together = codes "/v1/chat/completions"
chat_path groq = codes "/openai/v1/chat/completions"

unfoldable pub bearer : Text → List (Text × Text)
bearer key = (codes "Authorization", codes "Bearer " ++ key) ∷ []

unfoldable pub auth_headers : ProviderKind → Text → List (Text × Text)
auth_headers openai key = bearer key
auth_headers anthropic key =
    (codes "x-api-key", key) ∷ (codes "anthropic-version", codes "2023-06-01") ∷ []
auth_headers together key = bearer key
auth_headers groq key = bearer key

module _ {F : Type 0} ⦃d : Double F⦄ where
  -- The request of the health check.
  unfoldable pub probe : ProviderKind → ChatRequest F
  probe kind = record {
    request_id = codes "health-check";
    api_key = [];
    model = elim (supported_models kind) [ [] ↦ [] | m ∷ ms ↦ m ];
    messages = record { role = codes "user"; content = codes "hi" } ∷ [];
    temperature = d.of_int (ℤ.pos 0);
    max_tokens = ℤ.pos 1;
    stream = false;
    user = none;
  }

module _ {J : Type 0} ⦃j : Json J⦄ where
  unfoldable pub read_http : HttpResult → Posted J
  read_http (no_answer error) = post_failed (codes "HTTP request failed: " ++ error)
  read_http (http_answer status body) =
      if leb 400 status
      then post_failed (codes "HTTP " ++ (show_ℕ status ++ (codes ": " ++ body)))
      else elim (j.parse body) [
        | none ↦ post_failed (j.parse_error body)
        | some value ↦ posted value
      ]

  -- `send` is the client's `Post`.
  unfoldable pub http_post : (send : HttpPost J → HttpResult) → HttpPost J → Posted J
  http_post send post = read_http (
      send (record post {
        headers = post.headers ++ ((codes "Content-Type", codes "application/json") ∷ []);
      }))

  module _ {F : Type 0} ⦃d : Double F⦄ ⦃n : JsonDouble F J⦄ where
    -- `extra` is the pass-through of the request.
    unfoldable pub build_request_body : ProviderKind → (extra : J) → ChatRequest F → J
    build_request_body openai extra req = openai_body extra req
    build_request_body anthropic extra req = anthropic_body req
    build_request_body together extra req = together_body req
    build_request_body groq extra req = groq_body req

    unfoldable pub parse_response : ProviderKind → J → ChatRequest F → F → Option (ChatResponse F)
    parse_response openai resp req ms = openai_response resp req ms
    parse_response anthropic resp req ms = anthropic_response resp req ms
    parse_response together resp req ms = together_response resp req ms
    parse_response groq resp req ms = groq_response resp req ms

    unfoldable pub post_of : Provider → (extra : J) → ChatRequest F → HttpPost J
    post_of p extra req = record {
      url = p.base_url;
      path = chat_path p.kind;
      headers = auth_headers p.kind p.api_key;
      timeout_ms = p.timeout_ms;
      body = build_request_body p.kind extra req;
    }

    -- One attempt, which takes `ms` milliseconds.
    unfoldable pub attempt_chat :
        (send : HttpPost J → HttpResult)
        → (ms : F) → Provider
        → (extra : J) → ChatRequest F
        → Reply F
    attempt_chat send ms p extra req = elim (http_post send (post_of p extra req)) [
      | post_failed e ↦ raised e
      | posted resp ↦ elim (parse_response p.kind resp req ms) [
        | none ↦ raised j.type_error
        | some r ↦ answered r
      ]
    ]

    -- `send i` and `elapsed i` are those of attempt `i`; the delays before the retries come back too.
    unfoldable pub chat :
        (send : ℕ → HttpPost J → HttpResult)
        → (elapsed : ℕ → F) → Provider
        → (extra : J) → ChatRequest F
        → List ℕ × Retried F
    chat send elapsed p extra req =
        with_retry p.max_retries (λ i. attempt_chat (send i) (elapsed i) p extra req)

    -- The whole answer is emitted as one chunk; `none`: the exception of `chat`, or its undefined end.
    unfoldable pub chat_stream :
        (send : ℕ → HttpPost J → HttpResult)
        → (elapsed : ℕ → F) → Provider
        → (extra : J) → ChatRequest F
        → Option StreamChunk
    chat_stream send elapsed p extra req = elim (chat send elapsed p extra req).1 [
      | returned r ↦ some (record {
        delta = r.content;
        done = true;
        prompt_tokens = some r.prompt_tokens;
        completion_tokens = some r.completion_tokens;
      })
      | rethrown e ↦ none
      | undefined ↦ none
    ]

    unfoldable pub health_check :
        (send : ℕ → HttpPost J → HttpResult) → (elapsed : ℕ → F) → Provider → Bool
    health_check send elapsed p = elim (chat send elapsed p j.null (probe p.kind)).1 [
      | returned r ↦ elim r.content [ [] ↦ false | c ∷ cs ↦ true ]
      | rethrown e ↦ false
      | undefined ↦ false
    ]
