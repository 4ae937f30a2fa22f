-- ===== src/Providers/Conversations.antt =====
-- How a conversation with system messages goes into the request to Anthropic.
use cost_optimized_llm_infer.Common.{
  Bool, true, false, not, List, [], ◌∷◌, ◌++◌, map, none, some, Text, codes, is_empty, keep,
  keep-append, lookup, text_dec, ◌≡◌, refl, ap, sym, ◌∙◌, arith, All, if◌then◌else◌,
}
use mathlib.Core.Path.{ap₂}
use cost_optimized_llm_infer.Types.{Message, ChatRequest}
use cost_optimized_llm_infer.Json.{Json, JsonDouble, IsJson}
use cost_optimized_llm_infer.Providers.Bodies.{
  system_prompt, is_dialogue, message_json, chat_members, system_member, stream_member,
  anthropic_body, openai_body,
}

-- A message that goes into the system prompt.
abbrev pub is_system : Message → Bool
is_system m = not (is_dialogue m)

system_prompt-system : (ms : List Message) → system_prompt (keep is_system ms) ≡ system_prompt ms
unfolding system_prompt is_dialogue
system_prompt-system [] = refl
system_prompt-system (m ∷ ms) = ground (arith, system_prompt-system ms)

system_prompt-dialogue : (ms : List Message) → system_prompt (keep is_dialogue ms) ≡ []
unfolding system_prompt is_dialogue
system_prompt-dialogue [] = refl
system_prompt-dialogue (m ∷ ms) = ground (arith, system_prompt-dialogue ms)

system_prompt-append :
    (ms ns : List Message) → system_prompt ns ≡ [] → system_prompt (ms ++ ns) ≡ system_prompt ms
unfolding system_prompt
system_prompt-append [] ns e = e
system_prompt-append (m ∷ ms) ns e = ground (arith, system_prompt-append ms ns e)

dialogue_of_system : (ms : List Message) → keep is_dialogue (keep is_system ms) ≡ []
dialogue_of_system [] = refl
dialogue_of_system (m ∷ ms) = ground (arith, dialogue_of_system ms)

dialogue_again : (ms : List Message) → keep is_dialogue (keep is_dialogue ms) ≡ keep is_dialogue ms
dialogue_again [] = refl
dialogue_again (m ∷ ms) = ground (arith, dialogue_again ms)

-- The system messages in front, the others behind them, both in their order.
abbrev pub system_first : List Message → List Message
system_first ms = keep is_system ms ++ keep is_dialogue ms

system_prompt-first : (ms : List Message) → system_prompt (system_first ms) ≡ system_prompt ms
system_prompt-first ms =
    system_prompt-append (keep is_system ms) (keep is_dialogue ms) (system_prompt-dialogue ms)
    ∙ system_prompt-system ms

dialogue-first : (ms : List Message) → keep is_dialogue (system_first ms) ≡ keep is_dialogue ms
dialogue-first ms =
    keep-append is_dialogue (keep is_system ms) (keep is_dialogue ms)
    ∙ ap (λ l. l ++ keep is_dialogue (keep is_dialogue ms)) (dialogue_of_system ms)
    ∙ dialogue_again ms

-- A conversation without system messages.
abbrev pub NoSystem : List Message → Type 0
NoSystem = All (λ m. is_dialogue m ≡ true)

dialogue-NoSystem : (ms : List Message) → NoSystem ms → keep is_dialogue ms ≡ ms
dialogue-NoSystem [] h = refl
dialogue-NoSystem (m ∷ ms) h = ground (arith, dialogue-NoSystem ms h.1, h.0)

module _ {J : Type 0} ⦃j : Json J⦄ where
  no_system :
      (stream : Bool) (a b c d : J)
      → lookup (codes "system") (
          (codes "model", a)
          ∷ (codes "messages", b)
          ∷ (codes "max_tokens", c)
          ∷ (codes "temperature", d)
          ∷ (if stream then (codes "stream", j.boolean true) ∷ [] else []))
        ≡ none
  unfolding lookup text_dec
  no_system true a b c d = refl
  no_system false a b c d = refl

module _ {F J : Type 0} ⦃j : Json J⦄ ⦃n : JsonDouble F J⦄ where
  -- Where the system messages stand in the conversation makes no difference to the request to
  -- Anthropic: it is that of the conversation with all of them in front.
  pub anthropic_body-system_first :
      (req : ChatRequest F)
      → anthropic_body (record req { messages = system_first req.messages })
        ≡ anthropic_body {J = J} req
  unfolding anthropic_body system_member stream_member is_empty
  anthropic_body-system_first req =
      ap₂
        (λ (prompt : Text) (dialogue : List Message). j.object (
          (codes "model", j.string req.model)
          ∷ (codes "messages", j.array (map message_json dialogue))
          ∷ (codes "max_tokens", j.integer req.max_tokens)
          ∷ (codes "temperature", n.number req.temperature)
          ∷ ((if is_empty prompt then [] else (codes "system", j.string prompt) ∷ [])
              ++ stream_member req)))
        (system_prompt-first req.messages) (dialogue-first req.messages)

  anthropic_body_plain :
      (req : ChatRequest F)
      → NoSystem req.messages
      → anthropic_body req
        ≡ j.object (
            (codes "model", j.string req.model)
            ∷ (codes "messages", j.array (map message_json req.messages))
            ∷ (codes "max_tokens", j.integer req.max_tokens)
            ∷ (codes "temperature", n.number req.temperature)
            ∷ (if req.stream then (codes "stream", j.boolean true) ∷ [] else []))
  unfolding anthropic_body system_member stream_member is_empty
  anthropic_body_plain req h =
      let all = dialogue-NoSystem req.messages h in
      rw
        (
          all,
          ap system_prompt (sym all) ∙ system_prompt-dialogue req.messages,
          anthropic_body,
          system_member,
        )
        refl

  -- A conversation without system messages has the same messages in the request to Anthropic as in
  -- that to OpenAI, in their order, and the request to Anthropic has no system prompt.
  pub anthropic_body-dialogue :
      (law : IsJson J) (req : ChatRequest F)
      → NoSystem req.messages
      → (j.find (codes "messages") (anthropic_body req)
          ≡ j.find (codes "messages") (openai_body j.null req))
        × (j.find (codes "system") (anthropic_body req) ≡ none)
  unfolding openai_body chat_members lookup text_dec
  anthropic_body-dialogue law req h =
      let messages = j.array (map message_json req.messages) in
      let sent : j.find (codes "messages") (openai_body j.null req) ≡ some messages =
        rw (law.empty_null, openai_body) (law.find_object (codes "messages") _) in
      rw (anthropic_body_plain req h) (
        law.find_object (codes "messages") _ ∙ sym sent,
        law.find_object (codes "system") _
            ∙ no_system req.stream (j.string req.model) messages (j.integer req.max_tokens)
                (n.number req.temperature),
      )
