-- ===== src/Common/Maps.antt =====
-- `std::unordered_map` with string keys, as an association list in the order of iteration.
-- A key that is new goes to the end; a value that is assigned stays in its place.
use mathlib.Core.List.{List, [], ◌∷◌}
use mathlib.Core.Logic.{◌≢◌, ite, if_pos, if_neg}
use mathlib.Core.Option.{Option, none, some, some-injective}
use mathlib.Core.Path.{◌≡◌, refl, sym, ◌∙◌, subst}
use native.Mathlib.Omega.{arith}
use cost_optimized_llm_infer.Common.Bytes.{Text, text_dec}

abbrev pub Dict {ℓ} : Type ℓ → Type ℓ
Dict V = List (Text × V)

module _ {ℓ} {V : Type ℓ} where
  -- `find`
  unfoldable pub lookup : Text → Dict V → Option V
  lookup k [] = none
  lookup k ((j, v) ∷ m) = ite (text_dec j k) (some v) (lookup k m)

  -- `m[k] = v`
  unfoldable pub insert : Text → V → Dict V → Dict V
  insert k v [] = (k, v) ∷ []
  insert k v ((j, w) ∷ m) = ite (text_dec j k) ((j, v) ∷ m) ((j, w) ∷ insert k v m)

  -- `erase(k)`
  unfoldable pub erase : Text → Dict V → Dict V
  erase k [] = []
  erase k ((j, w) ∷ m) = let rest = erase k m in ite (text_dec j k) rest ((j, w) ∷ rest)

  pub lookup-insert :
      (j k : Text) (v : V) (m : Dict V)
      → lookup j (insert k v m) ≡ ite (text_dec k j) (some v) (lookup j m)
  unfolding lookup insert
  lookup-insert j k v [] = refl
  lookup-insert j k v ((i, w) ∷ m) = ground (arith, lookup-insert j k v m)

  pub lookup-insert_self : (k : Text) (v : V) (m : Dict V) → lookup k (insert k v m) ≡ some v
  lookup-insert_self k v m = ground (arith, lookup-insert k k v m)

  pub lookup-insert_ne :
      (j k : Text) (v : V) (m : Dict V) → k ≢ j → lookup j (insert k v m) ≡ lookup j m
  lookup-insert_ne j k v m h = ground (arith, lookup-insert j k v m)

  pub lookup-erase :
      (j k : Text) (m : Dict V) → lookup j (erase k m) ≡ ite (text_dec k j) none (lookup j m)
  unfolding lookup erase
  lookup-erase j k [] = ground arith
  lookup-erase j k ((i, w) ∷ m) = ground (arith, lookup-erase j k m)

  -- What holds of a value that was stored and of the values before holds of what is read.
  pub stored_ind {κ} :
      (P : V → Type κ) (k j : Text) (v b : V) (before : Option V)
      → ite (text_dec k j) (some v) before ≡ some b
      → P v
      → (before ≡ some b → P b)
      → P b
  stored_ind P k j v b before e new old = elim (text_dec k j) [
    | yes same ↦
        subst P (some-injective v b (sym (if_pos (text_dec k j) same (some v) before) ∙ e)) new
    | no other ↦ old (sym (if_neg (text_dec k j) other (some v) before) ∙ e)
  ]
