-- ===== src/Api/Compatible.antt =====
-- What src/providers sends, read by src/api/chat_completions.cpp.
use cost_optimized_llm_infer.Common.{
  Bool, true, false, if◌then◌else◌, List, [], ◌∷◌, ◌++◌, map, Option, none, some, Text, codes,
  text_dec, pos, Double, ◌≡◌, refl, ap, ◌∙◌, lookup, traverse,
}
use cost_optimized_llm_infer.Types.{Message, ChatRequest}
use cost_optimized_llm_infer.Json.{
  Json, JsonDouble, IsJson, IsJsonDouble, value, value-object, value-absent,
}
use cost_optimized_llm_infer.Providers.{openai, together, groq}
use cost_optimized_llm_infer.Providers.Client.{build_request_body}
use cost_optimized_llm_infer.Providers.Bodies.{
  message_json, stream_member, user_member, chat_members, openai_body, together_body, groq_body,
}
use cost_optimized_llm_infer.Api.Completions.{
  parse_message, parse_messages, parse_user, parse_request,
}

module _ {J : Type 0} ⦃j : Json J⦄ (law : IsJson J) where
  parse_message-message_json : (m : Message) → parse_message {J = J} (message_json m) ≡ some m
  unfolding parse_message message_json lookup text_dec
  parse_message-message_json m =
      rw
        (
          value-object law j.get_text (codes "role") (codes "user")
              ((codes "role", j.string m.role) ∷ (codes "content", j.string m.content) ∷ []) _
              m.role refl (law.get_string m.role),
          value-object law j.get_text (codes "content") []
              ((codes "role", j.string m.role) ∷ (codes "content", j.string m.content) ∷ []) _
              m.content refl (law.get_string m.content),
        )
        refl

  traverse-parse_message :
      (ms : List Message) → traverse parse_message (map {B = J} message_json ms) ≡ some ms
  traverse-parse_message [] = refl
  traverse-parse_message (m ∷ ms) =
      rw (parse_message-message_json m, traverse-parse_message ms) refl

  -- The messages of an object that was made with them.
  parse_messages-object :
      (ms : List Message) (members : List (Text × J))
      → lookup (codes "messages") members ≡ some (j.array (map message_json ms))
      → parse_messages (j.object members) ≡ some ms
  unfolding parse_messages
  parse_messages-object [] members found =
      rw
        (
          law.find_object (codes "messages") members,
          found,
          law.is_array_array [],
          law.empty_array [],
          parse_messages,
        )
        refl
  parse_messages-object (m ∷ ms) members found =
      let xs = message_json m ∷ map message_json ms in
      let all : traverse parse_message (j.items (j.array xs)) ≡ some (m ∷ ms) =
        ap (traverse parse_message) (law.items_array xs) ∙ traverse-parse_message (m ∷ ms) in
      rw
        (
          law.find_object (codes "messages") members,
          found,
          law.is_array_array xs,
          law.empty_array xs,
          parse_messages,
        )
        all

  parse_user-object :
      (members : List (Text × J)) (u : Text)
      → lookup (codes "user") members ≡ some (j.string u)
      → parse_user (j.object members) ≡ some (some u)
  unfolding parse_user
  parse_user-object members u found =
      rw (law.find_object (codes "user") members, found, law.get_string u, parse_user) refl

  parse_user-none :
      (members : List (Text × J))
      → lookup (codes "user") members ≡ none
      → parse_user (j.object members) ≡ some none
  unfolding parse_user
  parse_user-none members absent =
      rw (law.find_object (codes "user") members, absent, parse_user) refl

module _ {F J : Type 0} ⦃d : Double F⦄ ⦃j : Json J⦄ ⦃n : JsonDouble F J⦄ (law : IsJson J)
    (exact : IsJsonDouble F J) where
  -- A body with the members that every request has, whatever comes behind them.
  parse_request-object :
      (req_id header : Text) (req : ChatRequest F) (more : List (Text × J)) (stream : Bool)
      (user : Option Text)
      → value j.get_bool (codes "stream") false (j.object (chat_members req ++ more)) ≡ some stream
      → parse_user (j.object (chat_members req ++ more)) ≡ some user
      → parse_request req_id header (j.object (chat_members req ++ more))
        ≡ some (record req { request_id = req_id; api_key = header; stream = stream; user = user })
  unfolding parse_request chat_members lookup text_dec
  parse_request-object req_id header req more stream user streams used =
      let ms = chat_members req ++ more in
      rw
        (
          value-object law j.get_text (codes "model") (codes "gpt-4o-mini") ms _ req.model refl
              (law.get_string req.model),
          value-object law n.get_double (codes "temperature") (d.lit 7 1) ms _ req.temperature refl
              (exact.get_number req.temperature),
          value-object law j.get_int (codes "max_tokens") (pos 1024) ms _ req.max_tokens refl
              (law.get_integer req.max_tokens),
          streams,
          used,
          parse_messages-object law req.messages ms refl,
        )
        refl

  -- The members for a stream and for a user, if there are such.
  parse_request-members :
      (req_id header : Text) (req : ChatRequest F) (stream : Bool) (user : Option Text)
      → parse_request req_id header (
          j.object (
            chat_members req
            ++ ((if stream then (codes "stream", j.boolean true) ∷ [] else [])
                ++ (elim user [ none ↦ [] | some u ↦ (codes "user", j.string u) ∷ [] ]))))
        ≡ some (record req { request_id = req_id; api_key = header; stream = stream; user = user })
  unfolding chat_members lookup text_dec
  parse_request-members req_id header req true (some u) =
      parse_request-object req_id header req _ true (some u)
        (value-object law j.get_bool (codes "stream") false _ _ true refl (law.get_boolean true))
        (parse_user-object law _ u refl)
  parse_request-members req_id header req true none =
      parse_request-object req_id header req _ true none
        (value-object law j.get_bool (codes "stream") false _ _ true refl (law.get_boolean true))
        (parse_user-none law _ refl)
  parse_request-members req_id header req false (some u) =
      parse_request-object req_id header req _ false (some u)
        (value-absent law j.get_bool (codes "stream") false _ refl) (parse_user-object law _ u refl)
  parse_request-members req_id header req false none =
      parse_request-object req_id header req _ false none
        (value-absent law j.get_bool (codes "stream") false _ refl) (parse_user-none law _ refl)

  parse_request-without_user :
      (req_id header : Text) (req : ChatRequest F) (stream : Bool)
      → parse_request req_id header (
          j.object
            (chat_members req ++ (if stream then (codes "stream", j.boolean true) ∷ [] else [])))
        ≡ some (record req { request_id = req_id; api_key = header; stream = stream; user = none })
  parse_request-without_user req_id header req true =
      parse_request-members req_id header req true none
  parse_request-without_user req_id header req false =
      parse_request-members req_id header req false none

  -- The body that is sent to OpenAI, read by a gateway, is the request again, with the identifier and
  -- the key that this gateway gives it; the bodies for Together and Groq are so too, without the user.
  -- The request has no parameters that are passed through, and the JSON library gives back the
  -- members, elements and scalars that it was given.
  pub parse_request-build_request_body :
      (req_id header : Text) (req : ChatRequest F)
      → (parse_request req_id header (build_request_body openai j.null req)
          ≡ some (record req { request_id = req_id; api_key = header }))
        × (parse_request req_id header (build_request_body together j.null req)
            ≡ some (record req { request_id = req_id; api_key = header; user = none }))
        × (parse_request req_id header (build_request_body groq j.null req)
            ≡ some (record req { request_id = req_id; api_key = header; user = none }))
  unfolding build_request_body openai_body together_body groq_body stream_member user_member
  parse_request-build_request_body req_id header req = (
    rw (law.empty_null, build_request_body)
        (parse_request-members req_id header req req.stream req.user),
    parse_request-without_user req_id header req req.stream,
    parse_request-without_user req_id header req req.stream,
  )
