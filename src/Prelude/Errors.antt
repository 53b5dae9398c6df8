-- ===== src/Prelude/Errors.antt =====
-- Go's `error` values that the program makes or tells apart.
use Prim.Native.Nat.{ℕ}
use Prim.Native.String.{String}
use mathlib.Core.Option.{Option, none, some}
use mathlib.Core.Bool.{Bool, true, false}
use mathlib.Core.Path.{◌≡◌, refl}
use mathlib.Core.Logic.{◌⊎◌, inl, inr}

-- `canceled` and `deadline_exceeded` are the two errors of a context, `message` is made by
-- `errors.New`, `message_at` by `fmt.Errorf` with a round in its text, `wrapped` by `fmt.Errorf` with a text before
-- the error that it wraps, and the others are the errors of the node's client.
pub data GoError : Type 0 where
  canceled deadline_exceeded : GoError
  message : String → GoError
  message_at : String → ℕ → GoError
  wrapped : String → GoError → GoError
  bad_request internal_error invalid_token not_found : String → GoError

abbrev pub is_some {ℓ} : {A : Type ℓ} → Option A → Bool
is_some none = false
is_some (some a) = true

abbrev pub is_none {ℓ} : {A : Type ℓ} → Option A → Bool
is_none none = true
is_none (some a) = false

-- A value with an `error` beside it, of which exactly one counts.
pub data Result {ℓ} (A : Type ℓ) : Type ℓ where
  ok : A → Result A
  err : GoError → Result A

pub Result-cases {ℓ} :
    {A : Type ℓ} (r : Result A) → ((e : GoError) × (r ≡ err e)) ⊎ ((a : A) × (r ≡ ok a))
Result-cases (ok a) = inr (a, refl)
Result-cases (err e) = inl (e, refl)
