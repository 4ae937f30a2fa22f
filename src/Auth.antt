-- ===== src/Auth.antt =====
-- include/middleware/auth.h and src/middleware/auth.cpp. `std::hash` and the draws of the random
-- generator are arguments.
pub mod Sessions
pub mod KeyIds
use cost_optimized_llm_infer.Common.{
  ℕ, zero, suc, ◌+◌, ◌/◌, ◌%◌, Bool, true, false, not, ◌&&◌, List, [], ◌∷◌, ◌++◌, map, Option, none,
  some, Text, is_empty, same_text, codes, take, drop, get_elem?, ltb, ◌==◌, ℤ, pos, Dict, lookup,
  insert, Double, if◌then◌else◌,
}
use cost_optimized_llm_infer.Types.{VirtualKey}

unfoldable pub hex_char : ℕ → ℕ
hex_char n = if ltb n 10 then 48 + n else 87 + n

-- The last `k` hexadecimal digits, with zeros in front.
unfoldable pub hex_digits : ℕ → ℕ → Text
unfolding hex_char
hex_digits zero n = []
hex_digits (suc k) n = hex_digits k (n / 16) ++ (hex_char (n % 16) ∷ [])

-- `std::hex << std::setfill('0') << std::setw(16) << h`, for a hash of 64 bits.
unfoldable pub hash_key : (hash : Text → ℕ) → Text → Text
unfolding hex_digits
hash_key hash raw_key = hex_digits 16 (hash raw_key)

abbrev pub charset : Text
charset = codes "abcdefghijklmnopqrstuvwxyzABCDEFGHIJKLMNOPQRSTUVWXYZ0123456789"

-- A draw is a number from 0 to 61.
unfoldable pub char_at : ℕ → ℕ
char_at i = elim (get_elem? charset i) [ none ↦ 0 | some c ↦ c ]

-- One character for each of the 32 draws.
unfoldable pub generate_key : (draws : List ℕ) → Text
generate_key draws = codes "sk-gw-" ++ map char_at draws

-- `authenticate` drops the prefix, if it is there.
unfoldable pub strip_bearer : Text → Text
strip_bearer token = if same_text (take 7 token) (codes "Bearer ") then drop 7 token else token

unfoldable pub is_admin : (admin_key token : Text) → Bool
is_admin admin_key token = not (is_empty admin_key) && same_text token admin_key

-- Requests and tokens for each minute; the budget is in whole dollars, 0 for no limit.
pub record TierLimits : Type 0 where
  pub rpm : ℤ
  pub tpm : ℤ
  pub budget : ℕ

-- The limits of a tier; any other name keeps the defaults of the structure.
unfoldable pub limits_of : Text → TierLimits
limits_of tier =
    if same_text tier (codes "free")
    then record { rpm = pos 20; tpm = pos 40_000; budget = 5 }
    else if same_text tier (codes "pro")
    then record { rpm = pos 120; tpm = pos 500_000; budget = 100 }
    else if same_text tier (codes "team")
    then record { rpm = pos 600; tpm = pos 2_000_000; budget = 1000 }
    else if same_text tier (codes "enterprise")
    then record { rpm = pos 6000; tpm = pos 20_000_000; budget = 0 }
    else record { rpm = pos 60; tpm = pos 100_000; budget = 0 }

-- `keys_`: the hash of a key leads to its record.
abbrev pub Keys : Type 0 → Type 0
Keys F = Dict (VirtualKey F)

module _ {F : Type 0} where
  unfoldable pub is_current : (now : ℕ) → VirtualKey F → Bool
  is_current now key = key.active && not (not (key.expires_at == 0) && ltb key.expires_at now)

  unfoldable pub authenticate :
      (hash : Text → ℕ) → (bearer_token : Text) → (now : ℕ) → Keys F → Option (VirtualKey F)
  authenticate hash bearer_token now keys =
      if is_empty bearer_token
      then none
      else elim (lookup (hash_key hash (strip_bearer bearer_token)) keys) [
        | none ↦ none
        | some key ↦ if is_current now key then some key else none
      ]

  -- The loop of `revoke_key`, over the map in its order: the first key with the id is revoked.
  unfoldable pub revoke_key : Text → Keys F → Keys F × Bool
  revoke_key key_id [] = ([], false)
  revoke_key key_id ((h, vk) ∷ keys) =
      let rest = revoke_key key_id keys in
      if same_text vk.key_id key_id
      then ((h, record vk { active = false }) ∷ keys, true)
      else ((h, vk) ∷ rest.0, rest.1)

  unfoldable pub list_keys : Keys F → List (VirtualKey F)
  list_keys keys = map (λ (_, vk). record vk { key_hash = codes "***" }) keys

  unfoldable pub get_key : Text → Keys F → Option (VirtualKey F)
  get_key key_id [] = none
  get_key key_id ((_, vk) ∷ keys) =
      if same_text vk.key_id key_id then some vk else get_key key_id keys

module _ {F : Type 0} ⦃d : Double F⦄ where
  open d use {lit, of_int}

  -- The record that `create_key` stores.
  unfoldable pub new_key :
      (hash : Text → ℕ) → (draws : List ℕ) → (owner tier : Text) → (now : ℕ) → VirtualKey F
  new_key hash draws owner tier now =
      let raw = generate_key draws in
      let limits = limits_of tier in
      record {
        key_id = codes "gw-" ++ take 8 raw;
        key_hash = hash_key hash raw;
        owner = owner;
        tier = tier;
        rate_limit_rpm = limits.rpm;
        rate_limit_tpm = limits.tpm;
        budget_usd = lit limits.budget 0;
        spent_usd = of_int (pos 0);
        active = true;
        allowed_models = [];
        created_at = now;
        expires_at = 0;
      }

  -- The caller gets the raw key in the place of its hash.
  unfoldable pub create_key :
      (hash : Text → ℕ)
      → (draws : List ℕ) → (owner tier : Text) → (now : ℕ) → Keys F
      → Keys F × VirtualKey F
  create_key hash draws owner tier now keys =
      let vk = new_key hash draws owner tier now in
      (insert vk.key_hash vk keys, record vk { key_hash = generate_key draws })
