-- ===== src/Providers/Bodies.antt =====
-- `build_request_body` and `parse_response` of the four providers. `extra` of a request is never
-- set by the program; it is an argument here. An exception of the JSON library is `none`.
use cost_optimized_llm_infer.Common.{
  Bool, true, false, not, List, [], ◌∷◌, ◌++◌, map, Option, none, some, Text, codes, same_text,
  is_empty, keep, ℤ, pos, ◌+ℤ◌, Double, if◌then◌else◌, ◌>>=◌,
}
use cost_optimized_llm_infer.Types.{Message, ChatRequest, ChatResponse}
use cost_optimized_llm_infer.Json.{Json, JsonDouble, value, first_item}

-- The tokens that a response reports.
pub record Usage : Type 0 where
  pub prompt : ℤ
  pub completion : ℤ
  pub total : ℤ

-- The system prompt is every system message, each with a newline behind it.
unfoldable pub system_prompt : List Message → Text
system_prompt [] = []
system_prompt (m ∷ ms) =
    let rest = system_prompt ms in
    if same_text m.role (codes "system") then m.content ++ (codes "\n" ++ rest) else rest

unfoldable pub is_dialogue : Message → Bool
is_dialogue m = not (same_text m.role (codes "system"))

module _ {F : Type 0} ⦃d : Double F⦄ where
  -- The response that the parsers fill in.
  unfoldable pub filled :
      (provider model content : Text) → Usage → ChatRequest F → (latency_ms : F) → ChatResponse F
  filled provider model content usage req latency_ms = record {
    request_id = req.request_id;
    model = model;
    provider = provider;
    content = content;
    prompt_tokens = usage.prompt;
    completion_tokens = usage.completion;
    total_tokens = usage.total;
    latency_ms = latency_ms;
    cost_usd = d.of_int (pos 0);
    from_cache = false;
  }

module _ {J : Type 0} ⦃j : Json J⦄ where
  open j use {
    string, integer, boolean, array, object, empty, find, items, is_array, get_text, get_int,
    merge_patch,
  }

  -- Also `Message::to_json`.
  unfoldable pub message_json : Message → J
  message_json m = object ((codes "role", string m.role) ∷ (codes "content", string m.content) ∷ [])

  -- `choices[0].message.content`, if it is there.
  unfoldable pub choice_content : J → Option Text
  choice_content resp = elim (find (codes "choices") resp) [
    | none ↦ some []
    | some choices ↦
        if empty choices
        then some []
        else first_item choices >>= λ choice. elim (find (codes "message") choice) [
          | none ↦ some []
          | some message ↦ value get_text (codes "content") [] message
        ]
  ]

  unfoldable pub chat_usage : J → Option Usage
  chat_usage resp = elim (find (codes "usage") resp) [
    | none ↦ some (record { prompt = pos 0; completion = pos 0; total = pos 0 })
    | some usage ↦ do
      p ← value get_int (codes "prompt_tokens") (pos 0) usage
      c ← value get_int (codes "completion_tokens") (pos 0) usage
      t ← value get_int (codes "total_tokens") (pos 0) usage
      some (record { prompt = p; completion = c; total = t })
  ]

  -- The texts of the blocks of type `text`.
  unfoldable pub block_texts : List J → Option Text
  block_texts [] = some []
  block_texts (b ∷ bs) = do
    kind ← value get_text (codes "type") [] b
    text ← if same_text kind (codes "text") then value get_text (codes "text") [] b else some []
    rest ← block_texts bs
    some (text ++ rest)

  unfoldable pub block_content : J → Option Text
  block_content resp = elim (find (codes "content") resp) [
    | none ↦ some []
    | some blocks ↦ if is_array blocks then block_texts (items blocks) else some []
  ]

  unfoldable pub block_usage : J → Option Usage
  block_usage resp = elim (find (codes "usage") resp) [
    | none ↦ some (record { prompt = pos 0; completion = pos 0; total = pos 0 })
    | some usage ↦ do
      p ← value get_int (codes "input_tokens") (pos 0) usage
      c ← value get_int (codes "output_tokens") (pos 0) usage
      some (record { prompt = p; completion = c; total = p +ℤ c })
  ]

  module _ {F : Type 0} ⦃n : JsonDouble F J⦄ where
    open n use {number}

    unfoldable pub stream_member : ChatRequest F → List (Text × J)
    stream_member req = if req.stream then (codes "stream", boolean true) ∷ [] else []

    unfoldable pub user_member : ChatRequest F → List (Text × J)
    user_member req = elim req.user [ none ↦ [] | some u ↦ (codes "user", string u) ∷ [] ]

    -- The members that the providers with OpenAI's format share.
    unfoldable pub chat_members : ChatRequest F → List (Text × J)
    chat_members req =
        (codes "model", string req.model)
        ∷ (codes "messages", array (map message_json req.messages))
        ∷ (codes "temperature", number req.temperature)
        ∷ (codes "max_tokens", integer req.max_tokens)
        ∷ []

    unfoldable pub openai_body : (extra : J) → ChatRequest F → J
    openai_body extra req =
        let body = object (chat_members req ++ (stream_member req ++ user_member req)) in
        if empty extra then body else merge_patch body extra

    unfoldable pub together_body : ChatRequest F → J
    together_body req = object (chat_members req ++ stream_member req)

    unfoldable pub groq_body : ChatRequest F → J
    groq_body req = object (chat_members req ++ stream_member req)

    unfoldable pub system_member : ChatRequest F → List (Text × J)
    system_member req =
        let prompt = system_prompt req.messages in
        if is_empty prompt then [] else (codes "system", string prompt) ∷ []

    unfoldable pub anthropic_body : ChatRequest F → J
    anthropic_body req = object (
        (codes "model", string req.model)
        ∷ (codes "messages", array (map message_json (keep is_dialogue req.messages)))
        ∷ (codes "max_tokens", integer req.max_tokens)
        ∷ (codes "temperature", number req.temperature)
        ∷ (system_member req ++ stream_member req))

  module _ {F : Type 0} ⦃d : Double F⦄ where
    -- OpenAI's format, under the name of the provider.
    unfoldable pub parse_chat :
        (provider : Text) → J → ChatRequest F → (latency_ms : F) → Option (ChatResponse F)
    parse_chat provider resp req latency_ms = do
      model ← value get_text (codes "model") req.model resp
      content ← choice_content resp
      usage ← chat_usage resp
      some (filled provider model content usage req latency_ms)

    unfoldable pub openai_response : J → ChatRequest F → F → Option (ChatResponse F)
    openai_response resp req latency_ms = parse_chat (codes "openai") resp req latency_ms

    unfoldable pub together_response : J → ChatRequest F → F → Option (ChatResponse F)
    together_response resp req latency_ms = parse_chat (codes "together") resp req latency_ms

    unfoldable pub groq_response : J → ChatRequest F → F → Option (ChatResponse F)
    groq_response resp req latency_ms = parse_chat (codes "groq") resp req latency_ms

    unfoldable pub anthropic_response : J → ChatRequest F → F → Option (ChatResponse F)
    anthropic_response resp req latency_ms = do
      model ← value get_text (codes "model") req.model resp
      content ← block_content resp
      usage ← block_usage resp
      some (filled (codes "anthropic") model content usage req latency_ms)
