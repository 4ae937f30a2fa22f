-- ===== src/Cache/Keys.antt =====
-- Which requests share a cache key.
use cost_optimized_llm_infer.Common.{
  ℕ, List, [], ◌∷◌, ◌++◌, append_assoc, false, Text, codes, ◌≡◌, ◌↔◌, refl, ap, Double, arith,
  show_ℕ-injective, ℤ, show_ℕ,
}
use cost_optimized_llm_infer.Types.{Message, ChatRequest}
use cost_optimized_llm_infer.Cache.{CacheConfig, message_keys, key_text, make_key}

message_keys-append :
    (xs ys : List Message) → message_keys (xs ++ ys) ≡ message_keys xs ++ message_keys ys
unfolding message_keys
message_keys-append [] ys = refl
message_keys-append (m ∷ xs) ys = rw (message_keys-append xs ys) (simp append_assoc)

-- One message whose text contains what separates two.
abbrev pub fused : Message → Message → Message
fused a b = record {
  role = a.role;
  content = a.content ++ (codes "|" ++ (b.role ++ (codes ":" ++ b.content)));
}

message_keys-fused :
    (a b : Message) (ms : List Message) → message_keys (fused a b ∷ ms) ≡ message_keys (a ∷ b ∷ ms)
unfolding message_keys
message_keys-fused a b ms = simp append_assoc

module _ {F : Type 0} ⦃d : Double F⦄ (hash : Text → ℕ) where
  -- Two requests share a key exactly when the texts that are hashed have the same hash.
  pub make_key-eq_iff :
      (cfg : CacheConfig) (a b : ChatRequest F)
      → (make_key hash cfg a ≡ make_key hash cfg b)
        ↔ (hash (key_text cfg a) ≡ hash (key_text cfg b))
  unfolding make_key
  make_key-eq_iff cfg a b = (show_ℕ-injective _ _, ap show_ℕ)

  -- With `match_params` off the parameters play no part: the model and the messages decide.
  pub make_key-no_params :
      (cfg : CacheConfig) (req : ChatRequest F) (t : F) (n : ℤ)
      → cfg.match_params ≡ false
      → make_key hash cfg (record req { temperature = t; max_tokens = n }) ≡ make_key hash cfg req
  unfolding make_key key_text
  make_key-no_params cfg req t n off = ground arith

  -- The separators are not escaped: wherever two messages follow one another, a request with the
  -- single message that contains both has the same key, whatever the hash function.
  pub make_key-fused :
      (cfg : CacheConfig) (req : ChatRequest F) (before : List Message) (a b : Message)
      (behind : List Message)
      → make_key hash cfg (record req { messages = before ++ (fused a b ∷ behind) })
        ≡ make_key hash cfg (record req { messages = before ++ (a ∷ b ∷ behind) })
  unfolding make_key key_text
  make_key-fused cfg req before a b behind = rw (
    message_keys-append before (fused a b ∷ behind),
    message_keys-fused a b behind,
    ← message_keys-append before (a ∷ b ∷ behind),
  )
