-- ===== src/Api/Answers.antt =====
-- What the gateway of src/api/chat_completions.cpp answers, read by a provider of src/providers.
use cost_optimized_llm_infer.Common.{
  List, [], ◌∷◌, some, Text, codes, text_dec, ℤ, pos, Double, ◌≡◌, refl, lookup,
}
use cost_optimized_llm_infer.Types.{ChatRequest, ChatResponse}
use cost_optimized_llm_infer.Json.{Json, IsJson, value-object, first_item}
use cost_optimized_llm_infer.Providers.Bodies.{filled, choice_content, chat_usage, parse_chat}
use cost_optimized_llm_infer.Api.Completions.{completion_json}

module _ {J : Type 0} ⦃j : Json J⦄ (law : IsJson J) where
  pub choice_content-object :
      (members choice message : List (Text × J)) (t : Text)
      → lookup (codes "choices") members ≡ some (j.array (j.object choice ∷ []))
      → lookup (codes "message") choice ≡ some (j.object message)
      → lookup (codes "content") message ≡ some (j.string t)
      → choice_content (j.object members) ≡ some t
  unfolding choice_content first_item
  choice_content-object members choice message t found inner text =
      let xs = j.object choice ∷ [] in
      rw
        (
          law.find_object (codes "choices") members,
          found,
          law.empty_array xs,
          law.is_array_array xs,
          law.items_array xs,
          law.find_object (codes "message") choice,
          inner,
          value-object law j.get_text (codes "content") [] message _ t text (law.get_string t),
          choice_content,
          first_item,
        )
        refl

  chat_usage-object :
      (members usage : List (Text × J)) (p c t : ℤ)
      → lookup (codes "usage") members ≡ some (j.object usage)
      → lookup (codes "prompt_tokens") usage ≡ some (j.integer p)
      → lookup (codes "completion_tokens") usage ≡ some (j.integer c)
      → lookup (codes "total_tokens") usage ≡ some (j.integer t)
      → chat_usage (j.object members) ≡ some (record { prompt = p; completion = c; total = t })
  unfolding chat_usage
  chat_usage-object members usage p c t found in_p in_c in_t =
      rw
        (
          law.find_object (codes "usage") members,
          found,
          value-object law j.get_int (codes "prompt_tokens") (pos 0) usage _ p in_p
              (law.get_integer p),
          value-object law j.get_int (codes "completion_tokens") (pos 0) usage _ c in_c
              (law.get_integer c),
          value-object law j.get_int (codes "total_tokens") (pos 0) usage _ t in_t
              (law.get_integer t),
          chat_usage,
        )
        refl

module _ {F J : Type 0} ⦃d : Double F⦄ ⦃j : Json J⦄ (law : IsJson J) where
  -- The body of the gateway's answer, read as the answer of a provider with OpenAI's format, has
  -- the content, the model and the tokens of the response that it quotes. The JSON library gives
  -- back the members, elements and scalars that it was given.
  pub parse_chat-completion_json :
      (provider req_id : Text) (resp : ChatResponse F) (x_gateway : List (Text × J))
      (req : ChatRequest F) (ms : F)
      → parse_chat provider (completion_json req_id resp x_gateway) req ms
        ≡ some (
            filled provider resp.model resp.content
              (record {
                prompt = resp.prompt_tokens;
                completion = resp.completion_tokens;
                total = resp.total_tokens;
              })
              req
              ms)
  unfolding parse_chat completion_json lookup text_dec
  parse_chat-completion_json provider req_id resp x_gateway req ms =
      rw
        (
          value-object law j.get_text (codes "model") req.model _ _ resp.model refl
              (law.get_string resp.model),
          choice_content-object law _ _ _ resp.content refl refl refl,
          chat_usage-object law _ _ resp.prompt_tokens resp.completion_tokens resp.total_tokens refl
              refl refl refl,
        )
        refl
