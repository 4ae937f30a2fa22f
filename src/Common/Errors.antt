-- ===== src/Common/Errors.antt =====
-- Code that may throw: `none` is the exception, whatever it says.
use mathlib.Core.List.{List, [], ◌∷◌}
use mathlib.Core.Option.{Option, none, some}

infixl 5 ◌>>=◌
abbrev pub ◌>>=◌ {ℓ κ} : {A : Type ℓ} {B : Type κ} → Option A → (A → Option B) → Option B
some a >>= f = f a
none >>= f = none

-- A loop whose body may throw collects what the rounds give.
abbrev pub traverse : {A B : Type 0} → (A → Option B) → List A → Option (List B)
traverse f [] = some []
traverse f (x ∷ xs) = f x >>= λ y. traverse f xs >>= λ ys. some (y ∷ ys)
