-- ===== src/Common/Bytes.antt =====
-- `std::string` as the list of its bytes: literals, equality, `find` of one byte and `substr`.
use Prim.Native.Char.{code}
use Prim.Native.Nat.{ℕ}
use Prim.Native.String.{String}
use mathlib.Core.Bool.{Bool, true, false}
use mathlib.Core.List.{List, [], ◌∷◌, cons≢nil, tail-eq_of_cons-eq, head-eq_of_cons-eq}
use mathlib.Core.Logic.{dite, ite}
use mathlib.Core.Option.{Option, none, some}
use mathlib.Core.Path.{refl, sym, ap₂}
use native.Mathlib.Decide.{ℕ_discrete}

abbrev pub Text : Type 0
Text = List ℕ

-- The bytes of an ASCII literal.
abbrev pub codes : String → Text
codes String.[] = []
codes (String.◌∷◌ c s) = code c ∷ codes s

unfoldable pub text_dec : Discrete Text
unfolding ℕ_discrete
text_dec [] [] = yes refl
text_dec [] (y ∷ ys) = no (λ e. cons≢nil (sym e))
text_dec (x ∷ xs) [] = no (λ e. cons≢nil e)
text_dec (x ∷ xs) (y ∷ ys) =
    dite (ℕ_discrete x y)
      (λ p.
        dite (text_dec xs ys) (λ q. yes (ap₂ (◌∷◌) p q)) (λ n. no (λ e. n (tail-eq_of_cons-eq e))))
      (λ n. no (λ e. n (head-eq_of_cons-eq e)))

-- `empty()`
unfoldable pub is_empty : Text → Bool
is_empty [] = true
is_empty (_ ∷ _) = false

-- `==` on strings
unfoldable pub same_text : Text → Text → Bool
same_text a b = ite (text_dec a b) true false

-- The text before the first byte `c` and the text behind it, if there is one:
-- `find(c)`, `substr(0, pos)` and `substr(pos + 1)`.
unfoldable pub split_at_byte : ℕ → Text → Option (Text × Text)
unfolding ℕ_discrete
split_at_byte c [] = none
split_at_byte c (x ∷ xs) =
    ite (ℕ_discrete x c) (some ([], xs))
      (elim (split_at_byte c xs) [ none ↦ none | some (a, b) ↦ some (x ∷ a, b) ])
