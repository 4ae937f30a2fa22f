-- ===== src/Api/Schema.antt =====
-- The form of the answers of src/api/chat_completions.cpp: what a client can rely on in every one.
use cost_optimized_llm_infer.Common.{
  ℕ, ◌<◌, List, [], Option, none, some, Text, text_dec, codes, pos, ◌≡◌, ◌⊎◌, ◌∙◌, ◌∷◌, refl, inl,
  inr, Double, Option-cases, length, lookup,
}
use cost_optimized_llm_infer.Types.{ChatResponse}
use cost_optimized_llm_infer.Json.{Json, JsonDouble, IsJson, first_item}
use cost_optimized_llm_infer.Cache.{to_size_t}
use cost_optimized_llm_infer.Config.{GatewayConfig}
use cost_optimized_llm_infer.Providers.{Registry}
use cost_optimized_llm_infer.Chat.{Gateway, World, Calls, Outcome}
use cost_optimized_llm_infer.Chat.Outcome.{
  no_messages, limited, hit, no_providers, not_available, all_failed, miss,
}
use cost_optimized_llm_infer.Chat.Totality.{IsSound, handle_total}
use cost_optimized_llm_infer.Api.{Response, json_response, make_error}
use cost_optimized_llm_infer.Api.Completions.{
  parse_request, completion_json, hit_response, miss_response, limited_response, render, complete,
}

-- The statuses of the refusals.
pub data IsRefusal : ℕ → Type 0 where
  bad_request : IsRefusal 400
  too_many : IsRefusal 429
  bad_gateway : IsRefusal 502
  unavailable : IsRefusal 503

module _ {J : Type 0} ⦃j : Json J⦄ where
  -- A member that is there and is read as a value.
  pub record HasMember {A : Type 0} (convert : J → Option A) (k : Text) (x : J) (a : A)
      : Type 0 where
    pub member : J
    pub found : j.find k x ≡ some member
    pub converted : convert member ≡ some a

  -- A completion: the status 200, the id of the request, and a first choice whose message has a
  -- content.
  pub record IsCompletion (req_id : Text) (resp : Response J) : Type 0 where
    pub status : resp.status ≡ 200
    pub id : HasMember j.get_text (codes "id") resp.body req_id
    pub choice : J
    pub first : HasMember first_item (codes "choices") resp.body choice
    pub message : J
    pub said : j.find (codes "message") choice ≡ some message
    pub content : Text
    pub text : HasMember j.get_text (codes "content") message content

  -- A refusal: its status, and an error with a message and that status for its code.
  pub record IsError (resp : Response J) : Type 0 where
    pub status : IsRefusal resp.status
    pub error : J
    pub found : j.find (codes "error") resp.body ≡ some error
    pub message : Text
    pub told : HasMember j.get_text (codes "message") error message
    pub code : HasMember j.get_int (codes "code") error (pos resp.status)

  abbrev pub IsReply : Text → Response J → Type 0
  IsReply req_id resp = IsCompletion req_id resp ⊎ IsError resp

  module _ (law : IsJson J) where
    HasMember-object :
        {A : Type 0} (convert : J → Option A) (k : Text) (m : List (Text × J)) (v : J) (a : A)
        → lookup k m ≡ some v
        → convert v ≡ some a
        → HasMember convert k (j.object m) a
    HasMember-object convert k m v a there read = record {
      member = v;
      found = law.find_object k m ∙ there;
      converted = read;
    }

    first_item-array : (x : J) (xs : List J) → first_item (j.array (x ∷ xs)) ≡ some x
    unfolding first_item
    first_item-array x xs =
        rw (law.is_array_array (x ∷ xs), law.items_array (x ∷ xs), first_item) refl

    make_error-IsError :
        (status : ℕ) (message type : Text)
        → IsRefusal status
        → IsError (make_error status message type)
    unfolding make_error json_response lookup text_dec
    make_error-IsError status message type h = record {
      status = h;
      error = _;
      found = law.find_object (codes "error") _;
      message = message;
      told =
          HasMember-object j.get_text (codes "message") _ _ message refl (law.get_string message);
      code =
          HasMember-object j.get_int (codes "code") _ _ (pos status) refl
            (law.get_integer (pos status));
    }

    completion_json-IsCompletion :
        {F : Type 0} (req_id : Text) (answer : ChatResponse F) (x_gateway : List (Text × J))
        (headers : List (Text × Text))
        → IsCompletion req_id (record {
          status = 200;
          headers = headers;
          body = completion_json req_id answer x_gateway;
        })
    unfolding completion_json lookup text_dec
    completion_json-IsCompletion req_id answer x_gateway headers = record {
      status = refl;
      id = HasMember-object j.get_text (codes "id") _ _ req_id refl (law.get_string req_id);
      choice = _;
      first = HasMember-object first_item (codes "choices") _ _ _ refl (first_item-array _ []);
      message = _;
      said = law.find_object (codes "message") _;
      content = answer.content;
      text =
          HasMember-object j.get_text (codes "content") _ _ answer.content refl
            (law.get_string answer.content);
    }

    module _ {F : Type 0} ⦃d : Double F⦄ ⦃n : JsonDouble F J⦄ where
      render-IsReply : (req_id : Text) (out : Outcome F) → IsReply req_id (render req_id out)
      unfolding render limited_response hit_response miss_response make_error json_response
      render-IsReply req_id no_messages = inr (make_error-IsError 400 _ _ bad_request)
      render-IsReply req_id (limited r) =
          let e = make_error-IsError 429 _ _ too_many in
          inr (record {
            status = e.status;
            error = e.error;
            found = e.found;
            message = e.message;
            told = e.told;
            code = e.code;
          })
      render-IsReply req_id (hit resp) = inl (completion_json-IsCompletion req_id resp _ _)
      render-IsReply req_id (no_providers model) = inr (make_error-IsError 503 _ _ unavailable)
      render-IsReply req_id (not_available name) = inr (make_error-IsError 503 _ _ unavailable)
      render-IsReply req_id (all_failed model) = inr (make_error-IsError 502 _ _ bad_gateway)
      render-IsReply req_id (miss resp st) = inl (completion_json-IsCompletion req_id resp _ _)

      -- In a sound gateway, with room for an entry and fuel beyond the number of entries, and with
      -- a JSON library that gives back the members, elements and scalars that it was given, the
      -- handler of completions ends for every body, with an answer of one form: a completion with
      -- the status 200, whose body has the id of the request and a first choice with a message and
      -- its content, or an error whose body has a message and the status for its code, one of 400,
      -- 429, 502 and 503. The exception is a JSON body of which no request can be read, where the
      -- JSON library throws.
      pub complete-IsReply :
          (fuel : ℕ) (w : World) (cfg : GatewayConfig F) (reg : Registry) (call : Calls F)
          (req_id header : Text) (body : Option J) (g : Gateway F)
          → 0 < to_size_t cfg.cache.max_entries
          → IsSound cfg.cache g
          → length g.cache.entries < fuel
          → (g' : Gateway F) × (resp : Option (Response J)) × (complete fuel w cfg reg call req_id
                header body g
              ≡ some (g', resp))
            × (((reply : Response J) × (resp ≡ some reply) × IsReply req_id reply)
                ⊎ ((b : J) × (body ≡ some b)
                    × (resp ≡ none)
                    × (parse_request {F = F} req_id header b ≡ none)))
      unfolding complete
      complete-IsReply fuel w cfg reg call req_id header none g room s enough =
          (_, _, refl, inl (_, refl, inr (make_error-IsError 400 _ _ bad_request)))
      complete-IsReply fuel w cfg reg call req_id header (some b) g room s enough =
          elim (Option-cases (parse_request {F = F} req_id header b)) [
            | inl e ↦ rw (e, complete) (_, none, refl, inr (b, refl, refl, e))
            | inr (req, e) ↦
                let (out, ended, _) = handle_total fuel w cfg room reg call req g s enough in
                rw (e, complete) (rw ended (_, _, refl, inl (_, refl, render-IsReply req_id out.1)))
          ]
