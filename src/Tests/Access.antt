-- ===== src/Tests/Access.antt =====
-- Runs of the virtual keys.
use cost_optimized_llm_infer.Common.{
  ◌<◌, true, false, [], ◌∷◌, ◌++◌, none, some, ◌≡◌, ◌≢◌, ◌↔◌, ◌⊎◌, ap, get_elem?, arith, ℤ, codes,
  is_empty, lookup,
}
use mathlib.Core.Option.{some-injective}
use cost_optimized_llm_infer.Types.{VirtualKey}
use cost_optimized_llm_infer.Auth.{
  Keys, hash_key, generate_key, strip_bearer, authenticate, revoke_key, create_key, new_key,
  hex_digits, hex_char, char_at,
}
use cost_optimized_llm_infer.Auth.Sessions.{authenticate_iff}
use cost_optimized_llm_infer.Auth.KeyIds.{revoke_key_wrong}
use cost_optimized_llm_infer.Tests.Values.{millionths, hash}

abbrev one_key : Keys ℤ
one_key = (create_key hash (1 ∷ 2 ∷ 3 ∷ []) (codes "ann") (codes "pro") 7 []).0

abbrev ann : VirtualKey ℤ
ann = new_key hash (1 ∷ 2 ∷ 3 ∷ []) (codes "ann") (codes "pro") 7

authenticate_iff_example : (authenticate hash (codes "Bearer sk-gw-bcd") 9 one_key ≡ some ann) ↔ (
    (is_empty (codes "Bearer sk-gw-bcd") ≡ false)
    × (lookup (hash_key hash (strip_bearer (codes "Bearer sk-gw-bcd"))) one_key ≡ some ann)
    × (ann.active ≡ true)
    × ((ann.expires_at ≡ 0) ⊎ ¬ (ann.expires_at < 9)))
authenticate_iff_example = authenticate_iff hash (codes "Bearer sk-gw-bcd") 9 one_key ann

-- The two keys have different lengths, and so different hashes.
hashes_differ :
    hash_key hash (generate_key (4 ∷ 5 ∷ 6 ∷ [])) ≢ hash_key hash (generate_key (4 ∷ 5 ∷ []))
unfolding hash_key hex_digits hex_char generate_key char_at
hashes_differ e = absurd (omega (arith, some-injective 57 56 (ap (λ l. get_elem? l 15) e)))

revoke_key_wrong_example :
    let (one, shown) = create_key {F = ℤ} hash (4 ∷ 5 ∷ 6 ∷ []) (codes "ann") (codes "pro") 7 [] in
    let (two, shown') = create_key hash (4 ∷ 5 ∷ []) (codes "bob") (codes "free") 8 one in
    let (keys, reported) = revoke_key shown'.key_id two in
    (reported ≡ true)
    × (authenticate hash (codes "Bearer " ++ shown'.key_hash) 20 keys
        ≡ some (new_key hash (4 ∷ 5 ∷ []) (codes "bob") (codes "free") 8))
    × (authenticate hash (codes "Bearer " ++ shown.key_hash) 20 keys ≡ none)
revoke_key_wrong_example =
    revoke_key_wrong hash 4 5 (6 ∷ []) [] (codes "ann") (codes "bob") (codes "pro") (codes "free") 7
      8 20 hashes_differ
