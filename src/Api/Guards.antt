-- ===== src/Api/Guards.antt =====
-- What the administration of src/api/admin.cpp changes, and for whom.
use cost_optimized_llm_infer.Common.{
  ℕ, true, false, List, [], ◌∷◌, ◌++◌, map, none, some, Text, codes, same_text, text_dec, is_empty,
  Double, ◌≡◌, ◌≢◌, ◌⊎◌, inl, inr, refl, ap, arith, Bool-cases, lookup,
}
use cost_optimized_llm_infer.Types.{
  VirtualKey, RoutingStrategy, cost_optimized, latency_optimized, round_robin, failover, smart,
  strategy_named, strategy_to_string,
}
use cost_optimized_llm_infer.Json.{Json, JsonDouble, IsJson, value, value-object}
use cost_optimized_llm_infer.Auth.{Keys, is_admin, create_key, new_key, list_keys, authenticate}
use cost_optimized_llm_infer.Auth.Sessions.{authenticate-create_key, authenticate-revoke_key, NoId}
use cost_optimized_llm_infer.Router.{set_strategy}
use cost_optimized_llm_infer.Api.{Service, json_response, admin_error}
use cost_optimized_llm_infer.Api.Changes.{admitted_ind}
use cost_optimized_llm_infer.Api.Admin.{
  AdminRequest, post_keys, delete_key, strategy_json, created_json, listed_json, handle_post_keys,
  handle_get_keys, handle_delete_key, handle_post_routing, admitted, administer,
}

module _ {F : Type 0} where
  -- What the administration leaves alone.
  pub record IsKept (s s' : Service F) : Type 0 where
    pub registry : s'.registry ≡ s.registry
    pub limiter : s'.gateway.limiter ≡ s.gateway.limiter
    pub costs : s'.gateway.costs ≡ s.gateway.costs
    pub metrics : s'.gateway.metrics ≡ s.gateway.metrics
    pub health : s'.gateway.router.health ≡ s.gateway.router.health

  service-IsKept : (s : Service F) → IsKept s s
  service-IsKept s = record {
    registry = refl;
    limiter = refl;
    costs = refl;
    metrics = refl;
    health = refl;
  }

  keys-IsKept : (s : Service F) (keys : Keys F) → IsKept s (record s { keys = keys })
  keys-IsKept s keys = record {
    registry = refl;
    limiter = refl;
    costs = refl;
    metrics = refl;
    health = refl;
  }

is_admin-true :
    (admin_key auth : Text) → is_admin admin_key auth ≡ true → (admin_key ≢ []) × (auth ≡ admin_key)
unfolding is_admin is_empty same_text
is_admin-true [] auth e = absurd cc
is_admin-true (c ∷ cs) auth e = (λ o. absurd cc, ground (arith, e))

is_admin-false :
    (admin_key auth : Text)
    → is_admin admin_key auth ≡ false
    → (admin_key ≡ []) ⊎ (auth ≢ admin_key)
unfolding is_admin is_empty same_text
is_admin-false [] auth e = inl refl
is_admin-false (c ∷ cs) auth e = inr (ground (arith, e))

module _ {F J : Type 0} ⦃d : Double F⦄ ⦃j : Json J⦄ ⦃n : JsonDouble F J⦄ where
  admitted-IsKept : (req : AdminRequest J) (s : Service F) → IsKept s (admitted req s).0
  unfolding set_strategy
  admitted-IsKept req s =
      admitted_ind (IsKept s) s
        (record {
          same = service-IsKept s;
          created = λ hash draws owner tier now. keys-IsKept s _;
          revoked = λ key_id. keys-IsKept s _;
          switched = λ st. record {
            registry = refl;
            limiter = refl;
            costs = refl;
            metrics = refl;
            health = refl;
          };
          cleared = record {
            registry = refl;
            limiter = refl;
            costs = refl;
            metrics = refl;
            health = refl;
          };
        })
        req

  -- Any request to the administration is refused with the status 403 and changes nothing, if no admin
  -- key is configured or the authorization is not that key; otherwise it leaves the registry, the rate
  -- limiter, the costs, the metrics and the health records alone.
  pub administer_lem :
      (admin_key auth : Text) (req : AdminRequest J) (s : Service F)
      → let (s', resp) = administer admin_key auth req s in
        (((admin_key ≡ []) ⊎ (auth ≢ admin_key))
          × (s' ≡ s)
          × (resp ≡ some (admin_error (codes "Admin key required"))))
        ⊎ ((admin_key ≢ []) × (auth ≡ admin_key) × IsKept s s')
  unfolding administer
  administer_lem admin_key auth req s = elim (Bool-cases (is_admin admin_key auth)) [
    | inl e ↦
        rw (e, administer)
          (inr (
            (is_admin-true admin_key auth e).0,
            (is_admin-true admin_key auth e).1,
            admitted-IsKept req s,
          ))
    | inr e ↦ rw (e, administer) (inl (is_admin-false admin_key auth e, refl, refl))
  ]

  -- The answer to a listing of the keys does not depend on their hashes.
  pub handle_get_keys-hash :
      (f g : Text → Text) (s : Service F)
      → let hidden : Keys F =
          map (λ (h, vk). (f h, record vk { key_hash = g vk.key_hash })) s.keys in
        (handle_get_keys {J = J} (record s { keys = hidden })).1 ≡ (handle_get_keys s).1
  unfolding handle_get_keys list_keys listed_json
  handle_get_keys-hash f g s =
      ap (λ (l : List J). some (json_response 200 (j.array l))) (same s.keys)
    where
      same :
          (keys : Keys F)
          → map {B = J} listed_json (
              list_keys (
                map {B = Text × VirtualKey F}
                  (λ (h, vk). (f h, record vk { key_hash = g vk.key_hash }))
                  keys))
            ≡ map {B = J} listed_json (list_keys keys)
      same [] = refl
      same (k ∷ keys) = ap (λ l. listed_json k.1 ∷ l) (same keys)

strategy_named-strategy_to_string :
    (st : RoutingStrategy) → strategy_named (strategy_to_string st) ≡ st
unfolding strategy_named strategy_to_string same_text text_dec
strategy_named-strategy_to_string cost_optimized = refl
strategy_named-strategy_to_string latency_optimized = refl
strategy_named-strategy_to_string round_robin = refl
strategy_named-strategy_to_string failover = refl
strategy_named-strategy_to_string smart = refl

module _ {F J : Type 0} ⦃d : Double F⦄ ⦃j : Json J⦄ ⦃n : JsonDouble F J⦄ (law : IsJson J) where
  -- A strategy that is posted under its name is set, and the answer gives the same JSON back.
  pub handle_post_routing-strategy_json :
      (st : RoutingStrategy) (s : Service F)
      → let (s', resp) = handle_post_routing {J = J} (some (strategy_json st)) s in
        (s'.gateway.router.strategy ≡ st) × (resp ≡ some (json_response 200 (strategy_json st)))
  unfolding handle_post_routing strategy_json set_strategy lookup text_dec
  handle_post_routing-strategy_json st s =
      let name = strategy_to_string st in
      let read : value j.get_text (codes "strategy") (codes "smart") (strategy_json st)
          ≡ some name =
        value-object law j.get_text (codes "strategy") (codes "smart") _ (j.string name) name refl
          (law.get_string name) in
      rw (read, handle_post_routing)
        (
          strategy_named-strategy_to_string st,
          ap (λ t. some (json_response 200 (strategy_json t)))
              (strategy_named-strategy_to_string st),
        )

  -- The key of the answer to its creation, from a body whose owner and tier can be read,
  -- authenticates its owner at any later time, until the key with the identifier of that answer is
  -- deleted, if no other key has this identifier. The JSON library gives back the members, elements
  -- and scalars that it was given.
  pub admitted-authenticate :
      (hash : Text → ℕ) (draws : List ℕ) (now later : ℕ) (body : J) (owner tier : Text)
      (s : Service F)
      → value j.get_text (codes "owner") (codes "anonymous") body ≡ some owner
      → value j.get_text (codes "tier") (codes "free") body ≡ some tier
      → NoId (new_key {F = F} hash draws owner tier now).key_id s.keys
      → let (s', resp) = admitted (post_keys hash draws now (some body)) s in
        (raw : Text) × (key_id : Text) × (shown : J) × (resp ≡ some (json_response 201 shown))
        × (value j.get_text (codes "api_key") [] shown ≡ some raw)
        × (value j.get_text (codes "key_id") [] shown ≡ some key_id)
        × (authenticate hash (codes "Bearer " ++ raw) later s'.keys
            ≡ some (new_key hash draws owner tier now))
        × (authenticate hash
              (codes "Bearer " ++ raw)
              later
              (admitted {J = J} (delete_key key_id) s').0.keys
            ≡ none)
  unfolding admitted handle_post_keys handle_delete_key create_key new_key created_json lookup
      text_dec
  admitted-authenticate hash draws now later body owner tier s o t no_id =
      let key = (create_key {F = F} hash draws owner tier now s.keys).1 in
      rw (o, t, handle_post_keys)
        (
          key.key_hash,
          key.key_id,
          created_json key,
          refl,
          value-object law j.get_text (codes "api_key") [] _ _ _ refl (law.get_string key.key_hash),
          value-object law j.get_text (codes "key_id") [] _ _ _ refl (law.get_string key.key_id),
          authenticate-create_key hash draws owner tier now later s.keys,
          authenticate-revoke_key hash draws owner tier now later s.keys no_id,
        )
