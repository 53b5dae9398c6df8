-- ===== src/Prelude/Options.antt =====
-- What goes on where the program does not panic.
use mathlib.Core.Path.{◌≡◌, sym, ap, ◌∙◌}
use mathlib.Core.Option.{Option, none, some}

infixl 5 ◌>>=◌
abbrev pub ◌>>=◌ {ℓ κ} : {A : Type ℓ} {B : Type κ} → Option A → (A → Option B) → Option B
none >>= f = none
some a >>= f = f a

-- An option has one value.
pub some_unique {ℓ} : {A : Type ℓ} {o : Option A} {x y : A} → o ≡ some x → o ≡ some y → x ≡ y
some_unique {x} p q = ap (λ o. elim o [ none ↦ x | some a ↦ a ]) (sym p ∙ q)
