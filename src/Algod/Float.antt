-- ===== src/Algod/Float.antt =====
-- The `float32` numbers of internal/algod, which hold smoothed response times. antt has no floating
-- point: the type and the operations that the program uses are parameters. The laws are those of
-- `<` on numbers other than NaN, and a response time is never NaN.
use algo_vnode.Prelude.{ℕ, ◌≡◌, Bool, true, false}

pub record Float : Type 1 where
  pub F : Type 0
  pub lt : F → F → Bool
  -- `100_000_000`, the value of a node that has not answered.
  pub never : F
  -- `x > 99_999`.
  pub is_large : F → Bool
  -- `float32(us) / 1000.0`.
  pub of_micros : ℕ → F
  -- `0.9*x + 0.1*float32(us)/1000.0`.
  pub smooth : F → ℕ → F
  -- `int64(x)` of a number that is not negative.
  pub to_int : F → ℕ
  pub lt_asym : (x y : F) → lt x y ≡ true → lt y x ≡ false
  pub lt_cotrans : (x y z : F) → lt y x ≡ false → lt z y ≡ false → lt z x ≡ false
