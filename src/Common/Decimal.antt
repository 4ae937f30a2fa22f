-- ===== src/Common/Decimal.antt =====
-- `std::to_string` of integers: decimal digits, with a minus sign in front of a negative number.
use Prim.Native.Nat.{ℕ, zero, suc, ◌+◌, ◌-◌, ◌*◌, ◌/◌, ◌%◌, ◌<◌}
use mathlib.Core.List.{List, [], ◌∷◌, map, reverse, reverse-reverse}
use mathlib.Core.Path.{◌≡◌, sym, ap, ◌∙◌}
use native.Mathlib.Omega.{arith}
use cost_optimized_llm_infer.Common.Bytes.{Text}
use cost_optimized_llm_infer.Common.Int.{ℤ, pos, negsuc}
use cost_optimized_llm_infer.Common.Tests.{ltb, if◌then◌else◌}

-- The digits, the last one first; `fuel` bounds their number.
unfoldable pub digits : ℕ → ℕ → List ℕ
digits zero n = []
digits (suc fuel) n =
    let rest = digits fuel (n / 10) in if ltb n 10 then n ∷ [] else (n % 10) ∷ rest

-- A number has no more digits than it has units, so `n + 1` is fuel enough.
unfoldable pub show_ℕ : ℕ → Text
unfolding digits
show_ℕ n = reverse (map (λ d. d + 48) (digits (suc n) n))

unfoldable pub show_ℤ : ℤ → Text
unfolding show_ℕ
show_ℤ (pos n) = show_ℕ n
show_ℤ (negsuc n) = 45 ∷ show_ℕ (suc n)

value : List ℕ → ℕ
value [] = 0
value (c ∷ cs) = (c - 48) + 10 * value cs

value-digits : (fuel n : ℕ) → n < fuel → value (map (λ d. d + 48) (digits fuel n)) ≡ n
unfolding value digits
value-digits zero n h = absurd (omega arith)
value-digits (suc fuel) n h = ground (arith, value-digits fuel (n / 10))

-- The print determines the number.
pub show_ℕ-injective : (m n : ℕ) → show_ℕ m ≡ show_ℕ n → m ≡ n
unfolding show_ℕ
show_ℕ-injective m n e =
    let shown = λ (k : ℕ). map (λ d. d + 48) (digits (suc k) k) in
    let same : shown m ≡ shown n =
      sym (reverse-reverse (shown m)) ∙ ap reverse e ∙ reverse-reverse (shown n) in
    sym (value-digits (suc m) m (omega arith))
    ∙ ap value same
    ∙ value-digits (suc n) n (omega arith)
