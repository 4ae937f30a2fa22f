-- ===== src/Json.antt =====
-- The library nlohmann::json, as far as the program uses it: its values are a parameter `J` of the
-- model, with the operations below, and `IsJson` states what its documentation says of them.
use cost_optimized_llm_infer.Common.{
  Bool, true, false, List, [], ◌∷◌, Option, none, some, Text, ℤ, lookup, ◌≡◌, refl,
}

-- `find` is a member of an object, and `none` for any other value; `items` and `entries` are what a
-- loop over the value and over its `items()` visits; a `get` and `parse` are `none` where the library
-- throws, with the messages `type_error` and `parse_error`.
pub record Json (J : Type 0) : Type 0 where
  pub null : J
  pub string : Text → J
  pub integer : ℤ → J
  pub boolean : Bool → J
  pub array : List J → J
  pub object : List (Text × J) → J
  pub is_object : J → Bool
  pub is_array : J → Bool
  pub empty : J → Bool
  pub find : Text → J → Option J
  pub items : J → List J
  pub entries : J → List (Text × J)
  pub get_text : J → Option Text
  pub get_int : J → Option ℤ
  pub get_bool : J → Option Bool
  pub merge_patch : J → J → J
  pub parse : Text → Option J
  pub parse_error : Text → Text
  pub type_error : Text

-- The numbers that hold a `double`.
pub record JsonDouble (F J : Type 0) : Type 0 where
  pub number : F → J
  pub get_double : J → Option F

abbrev pub is_nil : {A : Type 0} → List A → Bool
is_nil [] = true
is_nil (x ∷ xs) = false

-- A value that was made is read back: an object gives its members and an array its elements.
pub record IsJson (J : Type 0) ⦃j : Json J⦄ : Type 0 where
  pub find_object : (k : Text) (m : List (Text × J)) → j.find k (j.object m) ≡ lookup k m
  pub is_object_object : (m : List (Text × J)) → j.is_object (j.object m) ≡ true
  pub is_array_array : (xs : List J) → j.is_array (j.array xs) ≡ true
  pub items_array : (xs : List J) → j.items (j.array xs) ≡ xs
  pub empty_array : (xs : List J) → j.empty (j.array xs) ≡ is_nil xs
  pub empty_null : j.empty j.null ≡ true
  pub get_string : (t : Text) → j.get_text (j.string t) ≡ some t
  pub get_integer : (n : ℤ) → j.get_int (j.integer n) ≡ some n
  pub get_boolean : (b : Bool) → j.get_bool (j.boolean b) ≡ some b

pub record IsJsonDouble (F J : Type 0) ⦃n : JsonDouble F J⦄ : Type 0 where
  pub get_number : (x : F) → n.get_double (n.number x) ≡ some x

module _ {J : Type 0} ⦃j : Json J⦄ where
  -- `value(k, default)`: it throws unless the value is an object, and where the conversion throws.
  unfoldable pub value : {A : Type 0} → (J → Option A) → Text → A → J → Option A
  value convert k default x = elim (j.is_object x) [
    | false ↦ none
    | true ↦ elim (j.find k x) [ none ↦ some default | some v ↦ convert v ]
  ]

  -- `[0]` on a constant value: it throws unless the value is an array; the program asks for it only
  -- where the value is not empty.
  unfoldable pub first_item : J → Option J
  first_item x = elim (j.is_array x) [
    | false ↦ none
    | true ↦ elim (j.items x) [ [] ↦ none | y ∷ ys ↦ some y ]
  ]

-- What `value` reads from an object that was made.
module _ {J : Type 0} ⦃j : Json J⦄ (law : IsJson J) {A : Type 0} (convert : J → Option A) where
  pub value-object :
      (k : Text) (default : A) (m : List (Text × J)) (v : J) (a : A)
      → lookup k m ≡ some v
      → convert v ≡ some a
      → value convert k default (j.object m) ≡ some a
  unfolding value
  value-object k default m v a found read =
      rw (law.is_object_object m, law.find_object k m, found, read, value) refl

  pub value-absent :
      (k : Text) (default : A) (m : List (Text × J))
      → lookup k m ≡ none
      → value convert k default (j.object m) ≡ some default
  unfolding value
  value-absent k default m absent =
      rw (law.is_object_object m, law.find_object k m, absent, value) refl
