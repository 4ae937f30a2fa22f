-- ===== src/Api/Changes.antt =====
-- The changes that the handlers of src/api/admin.cpp can make.
use cost_optimized_llm_infer.Common.{
  ℕ, List, none, some, Text, codes, Double, Bool-cases, Option-cases, inl, inr,
}
use cost_optimized_llm_infer.Types.{RoutingStrategy, strategy_named}
use cost_optimized_llm_infer.Json.{Json, JsonDouble, value}
use cost_optimized_llm_infer.Auth.{is_admin, create_key, revoke_key}
use cost_optimized_llm_infer.Cache.{clear}
use cost_optimized_llm_infer.Router.{set_strategy}
use cost_optimized_llm_infer.Api.{Service}
use cost_optimized_llm_infer.Api.Admin.{
  AdminRequest, post_keys, get_keys, delete_key, post_routing, delete_cache, get_costs,
  handle_post_keys, handle_get_keys, handle_delete_key, handle_post_routing, handle_delete_cache,
  handle_get_costs, admitted, administer,
}

-- What holds of a service and of all that the administration can make of it.
pub record IsKeptBy {F : Type 0} ⦃d : Double F⦄ (P : Service F → Type 0) (s : Service F)
    : Type 0 where
  pub same : P s
  pub created :
      (hash : Text → ℕ) (draws : List ℕ) (owner tier : Text) (now : ℕ)
      → P (record s { keys = (create_key hash draws owner tier now s.keys).0 })
  pub revoked : (key_id : Text) → P (record s { keys = (revoke_key key_id s.keys).0 })
  pub switched :
      (st : RoutingStrategy)
      → P (record s { gateway = record (s.gateway) { router = set_strategy st s.gateway.router } })
  pub cleared : P (record s { gateway = record (s.gateway) { cache = clear s.gateway.cache } })

module _ {F J : Type 0} ⦃d : Double F⦄ ⦃j : Json J⦄ ⦃n : JsonDouble F J⦄ (P : Service F → Type 0)
    (s : Service F) (h : IsKeptBy P s) where
  pub admitted_ind : (req : AdminRequest J) → P (admitted req s).0
  unfolding admitted handle_post_keys handle_get_keys handle_delete_key handle_post_routing
      handle_delete_cache handle_get_costs
  admitted_ind (post_keys hash draws now none) = h.same
  admitted_ind (post_keys hash draws now (some b)) =
      elim (Option-cases (value j.get_text (codes "owner") (codes "anonymous") b)) [
        | inl e ↦ rw (e, handle_post_keys) h.same
        | inr (owner, e) ↦ elim (Option-cases (value j.get_text (codes "tier") (codes "free") b)) [
          | inl e' ↦ rw (e, e', handle_post_keys) h.same
          | inr (tier, e') ↦ rw (e, e', handle_post_keys) (h.created hash draws owner tier now)
        ]
      ]
  admitted_ind get_keys = h.same
  admitted_ind (delete_key key_id) = h.revoked key_id
  admitted_ind (post_routing none) = h.same
  admitted_ind (post_routing (some b)) =
      elim (Option-cases (value j.get_text (codes "strategy") (codes "smart") b)) [
        | inl e ↦ rw (e, handle_post_routing) h.same
        | inr (name, e) ↦ rw (e, handle_post_routing) (h.switched (strategy_named name))
      ]
  admitted_ind delete_cache = h.cleared
  admitted_ind get_costs = h.same

  pub administer_ind :
      (admin_key auth : Text) (req : AdminRequest J) → P (administer admin_key auth req s).0
  unfolding administer
  administer_ind admin_key auth req = elim (Bool-cases (is_admin admin_key auth)) [
    | inl e ↦ rw (e, administer) (admitted_ind req)
    | inr e ↦ rw (e, administer) h.same
  ]
