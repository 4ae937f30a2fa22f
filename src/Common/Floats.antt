-- ===== src/Common/Floats.antt =====
-- What the program does with a `double`: decimal literals, conversion from integers, arithmetic,
-- two comparisons, truncation to `size_t` and to `int`, `std::to_string` and `operator<<`. The type
-- itself is a parameter of the model.
use Prim.Native.Nat.{ℕ}
use mathlib.Core.Bool.{Bool, true}
use mathlib.Core.Logic.{◌⊎◌}
use mathlib.Core.Path.{◌≡◌}
use cost_optimized_llm_infer.Common.Int.{ℤ}
use cost_optimized_llm_infer.Common.Bytes.{Text}

-- `lit m k` is the literal m / 10^k.
pub record Double (F : Type 0) : Type 0 where
  pub lit : ℕ → ℕ → F
  pub of_int : ℤ → F
  pub add : F → F → F
  pub sub : F → F → F
  pub mul : F → F → F
  pub div : F → F → F
  pub lt : F → F → Bool
  pub eq : F → F → Bool
  pub trunc : F → ℕ
  pub to_string : F → Text
  pub print : F → Text
  pub to_int : F → ℤ

infix 4 ◌≺◌
abbrev pub ◌≺◌ : {F : Type 0} ⦃d : Double F⦄ → F → F → Type 0
◌≺◌ ⦃d⦄ x y = d.lt x y ≡ true

-- IEEE 754 comparison, with NaN among the values: `<` is irreflexive and transitive, and it is
-- total up to equality for every value that equals itself, that is, for every one but NaN.
pub record IsOrdered (F : Type 0) ⦃d : Double F⦄ : Type 0 where
  pub lt_irrefl : (x : F) → ¬ (x ≺ x)
  pub lt_trans : (x y z : F) → x ≺ y → y ≺ z → x ≺ z
  pub lt_cotrans : (x y z : F) → d.eq z z ≡ true → x ≺ y → (x ≺ z) ⊎ (z ≺ y)
