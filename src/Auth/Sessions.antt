-- ===== src/Auth/Sessions.antt =====
-- Which tokens authenticate, before and after a key is created or revoked.
use cost_optimized_llm_infer.Common.{
  All, ℕ, ◌<◌, true, false, List, [], ◌∷◌, ◌++◌, ◌≡◌, ◌≢◌, ◌↔◌, ◌⊎◌, refl, none, some, Text,
  is_empty, same_text, codes, text_dec, lookup, insert, lookup-insert_self, Double, if◌then◌else◌,
  arith, inl, inr,
}
use cost_optimized_llm_infer.Types.{VirtualKey}
use cost_optimized_llm_infer.Auth.{
  Keys, hash_key, generate_key, strip_bearer, is_current, authenticate, revoke_key, new_key,
  create_key,
}

pub strip_bearer_lem : (raw : Text) → strip_bearer (codes "Bearer " ++ raw) ≡ raw
unfolding strip_bearer same_text text_dec
strip_bearer_lem raw = refl

module _ {F : Type 0} (hash : Text → ℕ) where
  -- A token authenticates as a key exactly when it is not empty, the key is stored under the hash
  -- of the token without its prefix, and the key is active and has no expiry or is not past it.
  pub authenticate_iff :
      (token : Text) (now : ℕ) (keys : Keys F) (key : VirtualKey F)
      → (authenticate hash token now keys ≡ some key) ↔ (
          (is_empty token ≡ false)
          × (lookup (hash_key hash (strip_bearer token)) keys ≡ some key)
          × (key.active ≡ true)
          × ((key.expires_at ≡ 0) ⊎ ¬ (key.expires_at < now)))
  unfolding authenticate is_current
  authenticate_iff token now keys key = ground arith

  pub authenticate_stored :
      (raw : Text) (later : ℕ) (keys : Keys F) (vk : VirtualKey F)
      → lookup (hash_key hash raw) keys ≡ some vk
      → authenticate hash (codes "Bearer " ++ raw) later keys
        ≡ (if is_current later vk then some vk else none)
  unfolding authenticate is_empty
  authenticate_stored raw later keys vk stored = rw (strip_bearer_lem raw) (ground arith)

module _ {F : Type 0} where
  -- Revoking changes at most the key that it finds under the id: any other lookup is as before, and
  -- no key becomes active.
  pub lookup-revoke_key :
      (key_id j : Text) (keys : Keys F)
      → (lookup j (revoke_key key_id keys).0 ≡ lookup j keys)
        ⊎ ((vk : VirtualKey F) × (lookup j keys ≡ some vk)
            × (vk.key_id ≡ key_id)
            × (lookup j (revoke_key key_id keys).0 ≡ some (record vk { active = false })))
  unfolding revoke_key lookup same_text
  lookup-revoke_key key_id j [] = inl refl
  lookup-revoke_key key_id j ((h, vk) ∷ keys) = elim (text_dec vk.key_id key_id) [
    | yes found ↦ elim (text_dec h j) [
      | yes here ↦ inr (vk, ground arith, found, ground arith)
      | no other ↦ inl (ground arith)
    ]
    | no other ↦ elim (text_dec h j) [
      | yes here ↦ inl (ground arith)
      | no there ↦ elim (lookup-revoke_key key_id j keys) [
        | inl e ↦ inl (ground arith)
        | inr (w, stored, found, after) ↦ inr (w, ground arith, found, ground arith)
      ]
    ]
  ]

  abbrev pub NoId : Text → Keys F → Type 0
  NoId key_id = All (λ e. e.1.key_id ≢ key_id)

  lookup-revoke_key-insert :
      (h key_id : Text) (vk : VirtualKey F) (keys : Keys F)
      → vk.key_id ≡ key_id
      → NoId key_id keys
      → lookup h (revoke_key key_id (insert h vk keys)).0 ≡ some (record vk { active = false })
  unfolding revoke_key lookup insert same_text
  lookup-revoke_key-insert h key_id vk [] e no_id = ground arith
  lookup-revoke_key-insert h key_id vk ((j, w) ∷ keys) e no_id =
      ground (arith, lookup-revoke_key-insert h key_id vk keys e)

module _ {F : Type 0} ⦃d : Double F⦄ (hash : Text → ℕ) where
  -- The raw key that `create_key` shows authenticates at any later time, as the key with the owner,
  -- the tier and the limits of that tier.
  pub authenticate-create_key :
      (draws : List ℕ) (owner tier : Text) (now later : ℕ) (keys : Keys F)
      → let (keys', shown) = create_key hash draws owner tier now keys in
        authenticate hash (codes "Bearer " ++ shown.key_hash) later keys'
        ≡ some (new_key hash draws owner tier now)
  unfolding create_key new_key is_current
  authenticate-create_key draws owner tier now later keys =
      let vk = new_key {F = F} hash draws owner tier now in
      authenticate_stored hash (generate_key draws) later _ vk
        (lookup-insert_self vk.key_hash vk keys)

  -- A new key that is revoked no longer authenticates, if no other key has its id.
  pub authenticate-revoke_key :
      (draws : List ℕ) (owner tier : Text) (now later : ℕ) (keys : Keys F)
      → NoId (new_key {F = F} hash draws owner tier now).key_id keys
      → let (keys', shown) = create_key hash draws owner tier now keys in
        authenticate hash
          (codes "Bearer " ++ shown.key_hash)
          later
          (revoke_key shown.key_id keys').0
        ≡ none
  unfolding create_key new_key is_current
  authenticate-revoke_key draws owner tier now later keys no_id =
      let vk = new_key {F = F} hash draws owner tier now in
      authenticate_stored hash (generate_key draws) later _ (record vk { active = false })
        (lookup-revoke_key-insert vk.key_hash vk.key_id vk keys refl no_id)
