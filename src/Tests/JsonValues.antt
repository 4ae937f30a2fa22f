-- ===== src/Tests/JsonValues.antt =====
-- JSON values in the place of those of the library, with numbers in millionths.
use cost_optimized_llm_infer.Common.{
  Bool, true, false, List, [], ◌∷◌, Option, none, some, Text, codes, ℤ, lookup, ◌≡◌, refl, ap,
}
use cost_optimized_llm_infer.Json.{Json, JsonDouble, IsJson, IsJsonDouble, is_nil}

mutual
  pub data Value : Type 0 where
    null : Value
    string : Text → Value
    integer : ℤ → Value
    number : ℤ → Value
    boolean : Bool → Value
    array : Values → Value
    object : Members → Value

  pub data Values : Type 0 where
    no_values : Values
    one_more : Value → Values → Values

  pub data Members : Type 0 where
    no_members : Members
    member : Text → Value → Members → Members

abbrev values : List Value → Values
values [] = no_values
values (x ∷ xs) = one_more x (values xs)

abbrev elements : Values → List Value
elements no_values = []
elements (one_more x xs) = x ∷ elements xs

abbrev members : List (Text × Value) → Members
members [] = no_members
members ((k, x) ∷ m) = member k x (members m)

abbrev pairs : Members → List (Text × Value)
pairs no_members = []
pairs (member k x m) = (k, x) ∷ pairs m

elements-values : (xs : List Value) → elements (values xs) ≡ xs
elements-values [] = refl
elements-values (x ∷ xs) = ap (λ l. x ∷ l) (elements-values xs)

pairs-members : (m : List (Text × Value)) → pairs (members m) ≡ m
pairs-members [] = refl
pairs-members ((k, x) ∷ m) = ap (λ l. (k, x) ∷ l) (pairs-members m)

abbrev is_object : Value → Bool
is_object (object m) = true
is_object v = false

abbrev is_array : Value → Bool
is_array (array xs) = true
is_array v = false

abbrev empty : Value → Bool
empty null = true
empty (array xs) = is_nil (elements xs)
empty (object m) = is_nil (pairs m)
empty v = false

abbrev find : Text → Value → Option Value
find k (object m) = lookup k (pairs m)
find k v = none

abbrev items : Value → List Value
items (array xs) = elements xs
items v = []

abbrev entries : Value → List (Text × Value)
entries (object m) = pairs m
entries v = []

abbrev get_text : Value → Option Text
get_text (string t) = some t
get_text v = none

abbrev get_int : Value → Option ℤ
get_int (integer n) = some n
get_int v = none

abbrev get_bool : Value → Option Bool
get_bool (boolean b) = some b
get_bool v = none

abbrev get_double : Value → Option ℤ
get_double (number x) = some x
get_double v = none

-- The answer of a provider with this content.
abbrev pub answer_of : Text → Value
answer_of t = object (
    member (codes "choices")
      (array (
        one_more
          (object (
            member (codes "message") (object (member (codes "content") (string t) no_members))
              no_members))
          no_values))
      no_members)

-- A parser that takes a text for the content of an answer.
abbrev parse : Text → Option Value
parse [] = none
parse t = some (answer_of t)

instance abbrev pub library : Json Value
library = record {
  null = null;
  string = string;
  integer = integer;
  boolean = boolean;
  array = λ xs. array (values xs);
  object = λ m. object (members m);
  is_object = is_object;
  is_array = is_array;
  empty = empty;
  find = find;
  items = items;
  entries = entries;
  get_text = get_text;
  get_int = get_int;
  get_bool = get_bool;
  merge_patch = λ a b. b;
  parse = parse;
  parse_error = λ t. codes "parse error";
  type_error = codes "type error";
}

instance abbrev pub library_numbers : JsonDouble ℤ Value
library_numbers = record { number = number; get_double = get_double }

pub library-IsJson : IsJson Value
library-IsJson = record {
  find_object = λ k m. ap (lookup k) (pairs-members m);
  is_object_object = λ m. refl;
  is_array_array = λ xs. refl;
  items_array = elements-values;
  empty_array = λ xs. ap is_nil (elements-values xs);
  empty_null = refl;
  get_string = λ t. refl;
  get_integer = λ n. refl;
  get_boolean = λ b. refl;
}

pub library_numbers-IsJsonDouble : IsJsonDouble ℤ Value
library_numbers-IsJsonDouble = record { get_number = λ x. refl }
