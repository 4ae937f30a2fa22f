-- ===== src/Main/Spent.antt =====
-- What the keys say of their spend.
use cost_optimized_llm_infer.Common.{
  ℕ, [], ◌∷◌, All, Text, text_dec, same_text, insert, ◌≡◌, refl, sym, pos, Double, Bool-cases, inl,
  inr,
}
use mathlib.Core.Logic.{if_pos, if_neg}
use mathlib.Core.Path.{subst}
use cost_optimized_llm_infer.Types.{VirtualKey}
use cost_optimized_llm_infer.Json.{Json, JsonDouble}
use cost_optimized_llm_infer.Auth.{Keys, create_key, new_key, revoke_key, list_keys}
use cost_optimized_llm_infer.Config.{GatewayConfig}
use cost_optimized_llm_infer.Api.{Service}
use cost_optimized_llm_infer.Api.Changes.{administer_ind}
use cost_optimized_llm_infer.Main.{set_up}
use cost_optimized_llm_infer.Main.Runs.{
  Step, completed, prompted, administered, Reach, start, later,
}

module _ {F : Type 0} ⦃d : Double F⦄ where
  -- No key has spent anything.
  abbrev pub Unspent : Keys F → Type 0
  Unspent = All (λ e. e.1.spent_usd ≡ d.of_int (pos 0))

  insert-Unspent :
      (k : Text) (vk : VirtualKey F) (keys : Keys F)
      → vk.spent_usd ≡ d.of_int (pos 0)
      → Unspent keys
      → Unspent (insert k vk keys)
  unfolding insert
  insert-Unspent k vk [] e h = (e, tt)
  insert-Unspent k vk ((j, w) ∷ keys) e h = elim (text_dec j k) [
    | yes same ↦ subst Unspent (sym (if_pos (text_dec j k) same _ _)) (e, h.1)
    | no other ↦
        subst Unspent (sym (if_neg (text_dec j k) other _ _)) (h.0, insert-Unspent k vk keys e h.1)
  ]

  revoke_key-Unspent :
      (key_id : Text) (keys : Keys F) → Unspent keys → Unspent (revoke_key key_id keys).0
  unfolding revoke_key
  revoke_key-Unspent key_id [] h = tt
  revoke_key-Unspent key_id ((j, vk) ∷ keys) h = elim (Bool-cases (same_text vk.key_id key_id)) [
    | inl e ↦ rw (e, revoke_key) h
    | inr e ↦ rw (e, revoke_key) (h.0, revoke_key-Unspent key_id keys h.1)
  ]

  list_keys-Unspent :
      (keys : Keys F) → Unspent keys → All (λ vk. vk.spent_usd ≡ d.of_int (pos 0)) (list_keys keys)
  unfolding list_keys
  list_keys-Unspent [] h = tt
  list_keys-Unspent (k ∷ keys) h = (h.0, list_keys-Unspent keys h.1)

module _ {F J : Type 0} ⦃d : Double F⦄ ⦃j : Json J⦄ ⦃n : JsonDouble F J⦄
    (cfg : GatewayConfig F) where
  Step-Unspent : {s t : Service F} → Step J cfg s t → Unspent s.keys → Unspent t.keys
  unfolding create_key new_key
  Step-Unspent (completed w call req_id header body ran) h = h
  Step-Unspent (prompted w call req_id body ran) h = h
  Step-Unspent {s} (administered auth req) h =
      administer_ind (λ x. Unspent x.keys) s
        (record {
          same = h;
          created = λ hash draws owner tier now.
              insert-Unspent _ (new_key hash draws owner tier now) s.keys refl h;
          revoked = λ key_id. revoke_key-Unspent key_id s.keys h;
          switched = λ st. h;
          cleared = h;
        })
        cfg.server.admin_key auth req

  Reach-Unspent : (now : ℕ) {s : Service F} → Reach J cfg now s → Unspent s.keys
  unfolding set_up
  Reach-Unspent now start = tt
  Reach-Unspent now (later before step) = Step-Unspent step (Reach-Unspent now before)

  -- Whatever was asked of the service since its start, the list of the keys shows no spend for any of
  -- them.
  pub list_keys-Reach :
      (now : ℕ) {s : Service F}
      → Reach J cfg now s
      → All (λ vk. vk.spent_usd ≡ d.of_int (pos 0)) (list_keys s.keys)
  list_keys-Reach now {s} before = list_keys-Unspent s.keys (Reach-Unspent now before)
