-- ===== src/Tests/Serving.antt =====
-- Runs of the handlers and of the service.
use cost_optimized_llm_infer.Common.{
  true, [], ◌∷◌, ◌++◌, map, Option, none, some, Text, codes, ℤ, pos, ◌+ℤ◌, ◌*ℤ◌, ◌≡◌, ◌≢◌, ◌⊎◌,
  refl, arith, lookup, insert, text_dec, inr, is_empty, if◌then◌else◌,
}
use cost_optimized_llm_infer.Types.{ChatRequest}
use cost_optimized_llm_infer.Json.{value}
use cost_optimized_llm_infer.Cache.{to_size_t, init}
use cost_optimized_llm_infer.Auth.{Keys, authenticate, create_key, new_key}
use cost_optimized_llm_infer.TokenCounter.{
  count_messages, count, tokenize, scan_end, scan_byte, is_space, is_punct, flush,
}
use cost_optimized_llm_infer.RateLimiter.{
  check_request, check_bucket, get_bucket, new_bucket, reset_if_expired,
}
use cost_optimized_llm_infer.CostTracker.{get_summary}
use cost_optimized_llm_infer.Providers.{openai, together, groq, answered}
use cost_optimized_llm_infer.Providers.Bodies.{filled, parse_chat}
use cost_optimized_llm_infer.Providers.Client.{build_request_body}
use cost_optimized_llm_infer.Chat.{Gateway, World, Calls, handle}
use cost_optimized_llm_infer.Chat.Outcome.{hit}
use cost_optimized_llm_infer.Api.{Response, Service, admin_error, json_response}
use cost_optimized_llm_infer.Api.Completions.{parse_request, completion_json, complete}
use cost_optimized_llm_infer.Api.Legacy.{legacy, legacy_call}
use cost_optimized_llm_infer.Api.Admin.{
  AdminRequest, post_keys, get_keys, delete_key, delete_cache, handle_get_keys, admitted,
  administer,
}
use cost_optimized_llm_infer.Api.Guards.{
  IsKept, administer_lem, handle_get_keys-hash, admitted-authenticate,
}
use cost_optimized_llm_infer.Api.Compatible.{parse_request-build_request_body}
use cost_optimized_llm_infer.Api.Answers.{parse_chat-completion_json}
use cost_optimized_llm_infer.Api.Schema.{IsReply, complete-IsReply}
use cost_optimized_llm_infer.Api.Uncharged.{checked, legacy_call-handle}
use cost_optimized_llm_infer.Main.{set_up}
use cost_optimized_llm_infer.Main.Runs.{
  Reach, start, later, administered, enough_fuel, Reach-answers,
}
use cost_optimized_llm_infer.Tests.Values.{millionths, hash, request, response, gateway}
use cost_optimized_llm_infer.Tests.JsonValues.{
  Value, library, library_numbers, library-IsJson, library_numbers-IsJsonDouble,
}
use cost_optimized_llm_infer.Tests.Handling.{world, idle, idle-IsSound, registry, calls}

abbrev service : Service ℤ
service = record {
  keys = (create_key hash (1 ∷ 2 ∷ []) (codes "ann") (codes "pro") 7 []).0;
  gateway = idle;
  registry = registry;
}

abbrev listing : AdminRequest Value
listing = get_keys

abbrev clearing : AdminRequest Value
clearing = delete_cache

administer_lem_example :
    let (s', resp) = administer (codes "root") (codes "guess") listing service in
    (((codes "root" ≡ []) ⊎ (codes "guess" ≢ codes "root"))
      × (s' ≡ service)
      × (resp ≡ some (admin_error (codes "Admin key required"))))
    ⊎ ((codes "root" ≢ []) × (codes "guess" ≡ codes "root") × IsKept service s')
administer_lem_example = administer_lem (codes "root") (codes "guess") listing service

handle_get_keys-hash_example :
    let hidden : Keys ℤ = map (λ (h, vk). ([], record vk { key_hash = codes "x" })) service.keys in
    (handle_get_keys {J = Value} (record service { keys = hidden })).1 ≡ (handle_get_keys service).1
handle_get_keys-hash_example = handle_get_keys-hash (λ h. []) (λ h. codes "x") service

abbrev order : Value
order = library.object ((codes "owner", library.string (codes "bob")) ∷ [])

abbrev fresh : Service ℤ
fresh = record service { keys = [] }

admitted-authenticate_example :
    let (s', resp) = admitted (post_keys hash (4 ∷ 5 ∷ 6 ∷ []) 8 (some order)) fresh in
    (raw : Text) × (key_id : Text) × (shown : Value) × (resp ≡ some (json_response 201 shown))
    × (value library.get_text (codes "api_key") [] shown ≡ some raw)
    × (value library.get_text (codes "key_id") [] shown ≡ some key_id)
    × (authenticate hash (codes "Bearer " ++ raw) 20 s'.keys
        ≡ some (new_key hash (4 ∷ 5 ∷ 6 ∷ []) (codes "bob") (codes "free") 8))
    × (authenticate hash
          (codes "Bearer " ++ raw)
          20
          (admitted {J = Value} (delete_key key_id) s').0.keys
        ≡ none)
unfolding value lookup text_dec
admitted-authenticate_example =
    admitted-authenticate library-IsJson hash (4 ∷ 5 ∷ 6 ∷ []) 8 20 order (codes "bob")
      (codes "free") fresh refl refl tt

abbrev streamed : ChatRequest ℤ
streamed = record request { stream = true; user = some (codes "ann") }

parse_request-build_request_body_example :
    (parse_request (codes "r2") (codes "k2") (build_request_body openai library.null streamed)
      ≡ some (record streamed { request_id = codes "r2"; api_key = codes "k2" }))
    × (parse_request (codes "r2") (codes "k2") (build_request_body together library.null streamed)
        ≡ some (record streamed { request_id = codes "r2"; api_key = codes "k2"; user = none }))
    × (parse_request (codes "r2") (codes "k2") (build_request_body groq library.null streamed)
        ≡ some (record streamed { request_id = codes "r2"; api_key = codes "k2"; user = none }))
parse_request-build_request_body_example =
    parse_request-build_request_body library-IsJson library_numbers-IsJsonDouble (codes "r2")
      (codes "k2") streamed

parse_chat-completion_json_example :
    parse_chat (codes "groq") (completion_json {J = Value} (codes "r2") response []) request (pos 7)
    ≡ some (
        filled
          (codes "groq")
          (codes "m")
          (codes "hello")
          (record { prompt = pos 10; completion = pos 5; total = pos 15 })
          request
          (pos 7))
parse_chat-completion_json_example =
    parse_chat-completion_json library-IsJson (codes "groq") (codes "r2") response [] request
      (pos 7)

-- A body for both handlers.
abbrev asking : Value
asking = library.object (
    (
      codes "messages",
      library.array (
          library.object (
            (codes "role", library.string (codes "user"))
            ∷ (codes "content", library.string (codes "hi"))
            ∷ [])
          ∷ []),
    )
    ∷ (codes "prompt", library.string (codes "hi"))
    ∷ [])

abbrev willing : Calls ℤ
willing i name req = answered response

abbrev later_on : World
later_on = record world { looked_up = 10; accessed = 11 }

second_let_through : (checked later_on gateway request idle.limiter).1.allowed ≡ true
unfolding check_request check_bucket get_bucket new_bucket reset_if_expired lookup insert ◌+ℤ◌
    count_messages count tokenize scan_end scan_byte is_space is_punct flush
second_let_through = refl

legacy_call-handle_example :
    (g' g'' : Gateway ℤ) × (page : Response Value) × (legacy_call 2 world gateway willing request
        (codes "groq")
        (codes "m")
        idle
      ≡ some (g', page))
    × (handle 2 later_on gateway registry calls request g'
        ≡ some (
          g'',
          hit (record response { from_cache = true; request_id = codes "r1"; latency_ms = pos 0 }),
        ))
    × (g''.costs ≡ idle.costs)
    × (g''.limiter ≡ (
        if is_empty request.api_key
        then idle.limiter
        else (checked later_on gateway request idle.limiter).0))
unfolding to_size_t init ◌+ℤ◌ ◌*ℤ◌
legacy_call-handle_example =
    legacy_call-handle Value 2 2 world later_on gateway registry willing calls request request
      (codes "groq") (codes "m") response idle refl refl refl (omega arith) (omega arith)
      idle-IsSound.cache refl (omega arith) (λ e. absurd cc) (inr second_let_through)

-- The service behind its start and one request to clear the cache.
cleared :
    Reach Value gateway 0 (administer gateway.server.admin_key [] clearing (set_up 0 gateway)).0
cleared = later start (administered [] clearing)

Reach-answers_example :
    let s = (administer gateway.server.admin_key [] clearing (set_up 0 gateway)).0 in
    ((out : Gateway ℤ × Option (Response Value)) × (complete
          (enough_fuel gateway)
          world
          gateway
          s.registry
          calls
          (codes "r2")
          (codes "k2")
          (some asking)
          s.gateway
        ≡ some out))
    × ((out : Gateway ℤ × Option (Response Value)) × (legacy
            (enough_fuel gateway)
            world
            gateway
            s.registry
            calls
            (codes "r2")
            (some asking)
            s.gateway
          ≡ some out))
    × ((get_summary (codes "k2") s.gateway.costs).cached_requests ≡ pos 0)
unfolding to_size_t
Reach-answers_example =
    Reach-answers gateway (omega arith) 0 world calls (codes "r2") (codes "k2") (codes "k2")
      (some asking) cleared

complete-IsReply_example :
    (g : Gateway ℤ) × (resp : Option (Response Value)) × (complete 1 world gateway registry calls
        (codes "r7")
        (codes "k")
        (some order)
        idle
      ≡ some (g, resp))
    × (((reply : Response Value) × (resp ≡ some reply) × IsReply (codes "r7") reply)
        ⊎ ((b : Value) × (some order ≡ some b)
            × (resp ≡ none)
            × (parse_request {F = ℤ} (codes "r7") (codes "k") b ≡ none)))
unfolding to_size_t init
complete-IsReply_example =
    complete-IsReply library-IsJson 1 world gateway registry calls (codes "r7") (codes "k")
      (some order) idle (omega arith) idle-IsSound (omega arith)
