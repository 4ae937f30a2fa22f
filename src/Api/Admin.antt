-- ===== src/Api/Admin.antt =====
-- src/api/admin.cpp.
use cost_optimized_llm_infer.Common.{
  ℕ, true, not, List, [], ◌∷◌, map, Option, none, some, Text, codes, Dict, Double, if◌then◌else◌,
}
use cost_optimized_llm_infer.Types.{VirtualKey, RoutingStrategy, strategy_named, strategy_to_string}
use cost_optimized_llm_infer.Json.{Json, JsonDouble, value}
use cost_optimized_llm_infer.Auth.{is_admin, create_key, list_keys, revoke_key}
use cost_optimized_llm_infer.Cache.{clear}
use cost_optimized_llm_infer.CostTracker.{SpendSummary, get_summary}
use cost_optimized_llm_infer.Router.{set_strategy}
use cost_optimized_llm_infer.Api.{Response, Service, json_response, admin_error, invalid_json}

-- A request to the administration: the route, with what the handler reads. `post_keys` has the hash
-- function, the random draws and the time.
pub data AdminRequest (J : Type 0) : Type 0 where
  post_keys : (hash : Text → ℕ) → (draws : List ℕ) → (now : ℕ) → Option J → AdminRequest J
  get_keys : AdminRequest J
  delete_key : (key_id : Text) → AdminRequest J
  post_routing : Option J → AdminRequest J
  delete_cache : AdminRequest J
  get_costs : AdminRequest J

-- What a handler does: the state that it leaves, and its response unless it throws.
abbrev pub Handler : Type 0 → Type 0 → Type 0
Handler F J = Service F → Service F × Option (Response J)

module _ {J : Type 0} ⦃j : Json J⦄ where
  open j use {string, object}

  unfoldable pub strategy_json : RoutingStrategy → J
  strategy_json s = object ((codes "strategy", string (strategy_to_string s)) ∷ [])

module _ {F J : Type 0} ⦃d : Double F⦄ ⦃j : Json J⦄ ⦃n : JsonDouble F J⦄ where
  open j use {string, integer, boolean, array, object, get_text}
  open n use {number}

  -- The new key, the only time that it is shown.
  unfoldable pub created_json : VirtualKey F → J
  created_json key = object (
      (codes "key_id", string key.key_id)
      ∷ (codes "api_key", string key.key_hash)
      ∷ (codes "owner", string key.owner)
      ∷ (codes "tier", string key.tier)
      ∷ (codes "rate_limit_rpm", integer key.rate_limit_rpm)
      ∷ (codes "rate_limit_tpm", integer key.rate_limit_tpm)
      ∷ (codes "budget_usd", number key.budget_usd)
      ∷ (codes "message", string (codes "Save this API key - it will not be shown again"))
      ∷ [])

  unfoldable pub handle_post_keys :
      (hash : Text → ℕ) → (draws : List ℕ) → (now : ℕ) → Option J → Handler F J
  handle_post_keys hash draws now body s = elim body [
    | none ↦ (s, some invalid_json)
    | some b ↦ elim (value get_text (codes "owner") (codes "anonymous") b) [
      | none ↦ (s, none)
      | some owner ↦ elim (value get_text (codes "tier") (codes "free") b) [
        | none ↦ (s, none)
        | some tier ↦
            let (keys, key) = create_key hash draws owner tier now s.keys in
            (record s { keys = keys }, some (json_response 201 (created_json key)))
      ]
    ]
  ]

  unfoldable pub listed_json : VirtualKey F → J
  listed_json k = object (
      (codes "key_id", string k.key_id)
      ∷ (codes "owner", string k.owner)
      ∷ (codes "tier", string k.tier)
      ∷ (codes "active", boolean k.active)
      ∷ (codes "rate_limit_rpm", integer k.rate_limit_rpm)
      ∷ (codes "spent_usd", number k.spent_usd)
      ∷ [])

  unfoldable pub handle_get_keys : Handler F J
  handle_get_keys s = (s, some (json_response 200 (array (map listed_json (list_keys s.keys)))))

  unfoldable pub handle_delete_key : Text → Handler F J
  handle_delete_key key_id s =
      let (keys, ok) = revoke_key key_id s.keys in
      (
        record s { keys = keys },
        some (
            json_response (if ok then 200 else 404)
              (object ((codes "revoked", boolean ok) ∷ (codes "key_id", string key_id) ∷ []))),
      )

  unfoldable pub handle_post_routing : Option J → Handler F J
  handle_post_routing body s = elim body [
    | none ↦ (s, some invalid_json)
    | some b ↦ elim (value get_text (codes "strategy") (codes "smart") b) [
      | none ↦ (s, none)
      | some name ↦
          let strategy = strategy_named name in
          (
            record s {
              gateway = record (s.gateway) { router = set_strategy strategy s.gateway.router };
            },
            some (json_response 200 (strategy_json strategy)),
          )
    ]
  ]

  unfoldable pub handle_delete_cache : Handler F J
  handle_delete_cache s = (
    record s { gateway = record (s.gateway) { cache = clear s.gateway.cache } },
    some (json_response 200 (object ((codes "cleared", boolean true) ∷ []))),
  )

  -- A map of sums as an object.
  unfoldable pub sums_json : Dict F → J
  sums_json m = object (map (λ (k, x). (k, number x)) m)

  unfoldable pub summary_json : SpendSummary F → J
  summary_json s = object (
      (codes "total_usd", number s.total_usd)
      ∷ (codes "cache_savings_usd", number s.cache_savings_usd)
      ∷ (codes "total_requests", integer s.total_requests)
      ∷ (codes "cached_requests", integer s.cached_requests)
      ∷ (codes "by_provider", sums_json s.by_provider)
      ∷ (codes "by_model", sums_json s.by_model)
      ∷ [])

  unfoldable pub handle_get_costs : Handler F J
  handle_get_costs s = (s, some (json_response 200 (summary_json (get_summary [] s.gateway.costs))))

  -- The handlers behind the guard that each of them starts with.
  unfoldable pub admitted : AdminRequest J → Handler F J
  admitted (post_keys hash draws now body) = handle_post_keys hash draws now body
  admitted get_keys = handle_get_keys
  admitted (delete_key key_id) = handle_delete_key key_id
  admitted (post_routing body) = handle_post_routing body
  admitted delete_cache = handle_delete_cache
  admitted get_costs = handle_get_costs

  unfoldable pub administer : (admin_key auth : Text) → AdminRequest J → Handler F J
  administer admin_key auth req s =
      if not (is_admin admin_key auth)
      then (s, some (admin_error (codes "Admin key required")))
      else admitted req s
