-- ===== src/Auth/KeyIds.antt =====
-- How much of a key its id shows, and what that means for revoking it.
use cost_optimized_llm_infer.Common.{
  ℕ, true, false, List, [], ◌∷◌, ◌++◌, ◌≡◌, ◌≢◌, some, none, Text, codes, same_text, lookup, insert,
  Double, arith,
}
use cost_optimized_llm_infer.Auth.{
  hash_key, generate_key, is_current, authenticate, revoke_key, new_key, create_key,
}
use cost_optimized_llm_infer.Auth.Sessions.{authenticate_stored}

module _ {F : Type 0} ⦃d : Double F⦄ (hash : Text → ℕ) where
  -- Two keys are created, the only ones, and their first two draws agree; so they share their id.
  -- If their hashes differ, revoking the id of the one that comes second in the map reports
  -- success, leaves that key in use, and locks out the other.
  pub revoke_key_wrong :
      (a b : ℕ) (first second : List ℕ) (owner owner' tier tier' : Text) (now now' later : ℕ)
      → hash_key hash (generate_key (a ∷ b ∷ first)) ≢ hash_key hash (generate_key (a ∷ b ∷ second))
      → let (one, shown) = create_key {F = F} hash (a ∷ b ∷ first) owner tier now [] in
        let (two, shown') = create_key hash (a ∷ b ∷ second) owner' tier' now' one in
        let (keys, reported) = revoke_key shown'.key_id two in
        (reported ≡ true)
        × (authenticate hash (codes "Bearer " ++ shown'.key_hash) later keys
            ≡ some (new_key hash (a ∷ b ∷ second) owner' tier' now'))
        × (authenticate hash (codes "Bearer " ++ shown.key_hash) later keys ≡ none)
  unfolding create_key insert lookup revoke_key same_text new_key generate_key is_current
  revoke_key_wrong a b first second owner owner' tier tier' now now' later differ =
      let va = new_key {F = F} hash (a ∷ b ∷ first) owner tier now in
      let vb = new_key {F = F} hash (a ∷ b ∷ second) owner' tier' now' in
      (
        ground arith,
        authenticate_stored hash (generate_key (a ∷ b ∷ second)) later _ vb (ground arith),
        authenticate_stored hash (generate_key (a ∷ b ∷ first)) later _
            (record va { active = false }) (ground arith),
      )
