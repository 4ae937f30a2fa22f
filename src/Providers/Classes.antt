-- ===== src/Providers/Classes.antt =====
-- What each class of src/providers overrides, and `chat` as a virtual call.
use cost_optimized_llm_infer.Common.{
  ℕ, ℤ, true, List, [], ◌∷◌, ◌++◌, Option, none, some, Text, codes, ◌≡◌, refl, ap, ◌∙◌, Double,
}
use cost_optimized_llm_infer.Types.{ChatRequest, ChatResponse}
use cost_optimized_llm_infer.Json.{Json, JsonDouble}
use cost_optimized_llm_infer.Providers.{
  ProviderKind, openai, anthropic, together, groq, Provider, Reply, answered, raised, Retried,
  returned, rethrown, undefined, with_retry,
}
use cost_optimized_llm_infer.Providers.Bodies.{
  openai_body, anthropic_body, together_body, groq_body, openai_response, anthropic_response,
  together_response, groq_response,
}
use cost_optimized_llm_infer.Providers.Client.{
  HttpResult, HttpPost, StreamChunk, chat_stream, posted, post_failed, http_post, chat,
  attempt_chat, post_of, chat_path, auth_headers, bearer, build_request_body, parse_response,
}

module _ {F J : Type 0} ⦃d : Double F⦄ ⦃j : Json J⦄ ⦃n : JsonDouble F J⦄
    (send : ℕ → HttpPost J → HttpResult) (elapsed : ℕ → F) (p : Provider)
    (req : ChatRequest F) where
  -- The body of the retries: a POST, and the parser on what it returns.
  abbrev tried :
      (path : Text)
      → (headers : List (Text × Text)) → (body : J) → (read : J → F → Option (ChatResponse F)) → ℕ
      → Reply F
  tried path headers body read i =
      elim (http_post (send i) (record {
        url = p.base_url;
        path = path;
        headers = headers;
        timeout_ms = p.timeout_ms;
        body = body;
      })) [
        | post_failed e ↦ raised e
        | posted resp ↦ elim (read resp (elapsed i)) [
          | none ↦ raised j.type_error
          | some r ↦ answered r
        ]
      ]

  unfoldable pub openai_chat : (extra : J) → List ℕ × Retried F
  openai_chat extra = with_retry p.max_retries (
      tried (codes "/v1/chat/completions")
        ((codes "Authorization", codes "Bearer " ++ p.api_key) ∷ []) (openai_body extra req)
        (λ resp ms. openai_response resp req ms))

  unfoldable pub anthropic_chat : List ℕ × Retried F
  anthropic_chat = with_retry p.max_retries (
      tried (codes "/v1/messages")
        ((codes "x-api-key", p.api_key) ∷ (codes "anthropic-version", codes "2023-06-01") ∷ [])
        (anthropic_body req) (λ resp ms. anthropic_response resp req ms))

  unfoldable pub together_chat : List ℕ × Retried F
  together_chat = with_retry p.max_retries (
      tried (codes "/v1/chat/completions")
        ((codes "Authorization", codes "Bearer " ++ p.api_key) ∷ []) (together_body req)
        (λ resp ms. together_response resp req ms))

  unfoldable pub groq_chat : List ℕ × Retried F
  groq_chat = with_retry p.max_retries (
      tried (codes "/openai/v1/chat/completions")
        ((codes "Authorization", codes "Bearer " ++ p.api_key) ∷ []) (groq_body req)
        (λ resp ms. groq_response resp req ms))

  -- The whole answer as one chunk; `none`: the exception of `chat`, or its undefined end.
  abbrev pub one_chunk : List ℕ × Retried F → Option StreamChunk
  one_chunk (delays, returned r) = some (record {
    delta = r.content;
    done = true;
    prompt_tokens = some r.prompt_tokens;
    completion_tokens = some r.completion_tokens;
  })
  one_chunk (delays, rethrown e) = none
  one_chunk (delays, undefined) = none

  unfoldable pub openai_chat_stream : (extra : J) → Option StreamChunk
  openai_chat_stream extra = one_chunk (openai_chat extra)

  unfoldable pub anthropic_chat_stream : Option StreamChunk
  anthropic_chat_stream = one_chunk anthropic_chat

  unfoldable pub together_chat_stream : Option StreamChunk
  together_chat_stream = one_chunk together_chat

  unfoldable pub groq_chat_stream : Option StreamChunk
  groq_chat_stream = one_chunk groq_chat

  abbrev pub own_chat_stream : ProviderKind → J → Option StreamChunk
  own_chat_stream openai extra = openai_chat_stream extra
  own_chat_stream anthropic extra = anthropic_chat_stream
  own_chat_stream together extra = together_chat_stream
  own_chat_stream groq extra = groq_chat_stream

  -- The method of the class of a provider.
  abbrev pub own_chat : ProviderKind → J → List ℕ × Retried F
  own_chat openai extra = openai_chat extra
  own_chat anthropic extra = anthropic_chat
  own_chat together extra = together_chat
  own_chat groq extra = groq_chat

module _ {F J : Type 0} ⦃d : Double F⦄ ⦃j : Json J⦄ ⦃n : JsonDouble F J⦄
    (send : ℕ → HttpPost J → HttpResult) (elapsed : ℕ → F) (extra : J) (req : ChatRequest F) where
  by_kind :
      (kind : ProviderKind) (key url : Text) (timeout retries : ℤ)
      → let p : Provider = record {
        kind = kind;
        api_key = key;
        base_url = url;
        timeout_ms = timeout;
        max_retries = retries;
      } in
        chat send elapsed p extra req ≡ own_chat send elapsed p req kind extra
  unfolding chat attempt_chat post_of chat_path auth_headers bearer build_request_body
      parse_response openai_chat anthropic_chat together_chat groq_chat
  by_kind openai key url timeout retries = refl
  by_kind anthropic key url timeout retries = refl
  by_kind together key url timeout retries = refl
  by_kind groq key url timeout retries = refl

  -- A call of `chat` runs the method of the provider's class.
  pub chat-own_chat :
      (p : Provider) → chat send elapsed p extra req ≡ own_chat send elapsed p req p.kind extra
  chat-own_chat p = by_kind p.kind p.api_key p.base_url p.timeout_ms p.max_retries

  by_end :
      (kind : ProviderKind) (p : Provider) (out : List ℕ × Retried F)
      → out ≡ own_chat send elapsed p req kind extra
      → one_chunk send elapsed p req out ≡ own_chat_stream send elapsed p req kind extra
  unfolding openai_chat_stream anthropic_chat_stream together_chat_stream groq_chat_stream
  by_end openai p out e = ap (one_chunk send elapsed p req) e
  by_end anthropic p out e = ap (one_chunk send elapsed p req) e
  by_end together p out e = ap (one_chunk send elapsed p req) e
  by_end groq p out e = ap (one_chunk send elapsed p req) e

  -- A call of `chat_stream` runs the method of the provider's class.
  pub chat_stream-own_chat_stream :
      (p : Provider)
      → chat_stream send elapsed p extra req ≡ own_chat_stream send elapsed p req p.kind extra
  unfolding chat_stream
  chat_stream-own_chat_stream p =
      by_chat (chat send elapsed p extra req) refl
      ∙ by_end p.kind p (chat send elapsed p extra req) (chat-own_chat p)
    where
      by_chat :
          (out : List ℕ × Retried F)
          → chat send elapsed p extra req ≡ out
          → chat_stream send elapsed p extra req
            ≡ one_chunk send elapsed p req (chat send elapsed p extra req)
      by_chat (delays, returned r) e = rw (e, chat_stream) refl
      by_chat (delays, rethrown x) e = rw (e, chat_stream) refl
      by_chat (delays, undefined) e = rw (e, chat_stream) refl
