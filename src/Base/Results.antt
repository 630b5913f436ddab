-- ===== src/Base/Results.antt =====
-- Go's `(value, error)`: a value, an error, or a panic that unwinds the goroutine.
use Prim.Native.Nat.{ℕ}
use mathlib.Core.Path.{◌≡◌, refl}
use mathlib.Core.Logic.{◌⊎◌, inl, inr}
use eris_db.Base.Text.{Bytes}

-- One constructor for each message; what a message quotes is its argument.
pub data Error : Type 0 where
  wrong_value_type : Error
  op_not_supported : Bytes → Bytes → Error
  field_not_supported : Bytes → Error
  operator_not_supported : Error
  no_such_block : Error
  height_not_positive height_too_large : Error
  missing_colon missing_field : Bytes → Error
  malformed_statement : Bytes → Error
  in_query in_request : Error → Error
  odd_length invalid_byte : Error
  invalid_syntax out_of_range : Error
  entry_not_found : Bytes → Error
  key_not_64_bytes : Error
  wrong_length : ℕ → Error
  empty_account : ℕ → Error
  in_broadcast in_output : Error → Error
  account_not_found : Bytes → Error
  not_regular : Bytes → Error
  other_error : Bytes → Error

pub data Result {ℓ} (A : Type ℓ) : Type ℓ where
  ok : A → Result A
  err : Error → Result A
  panic : Result A

-- `abbrev`, so that `ok a >>= f` computes wherever it stands.
infixl 5 ◌>>=◌ ◌>>◌
abbrev pub ◌>>=◌ {ℓ κ} : {A : Type ℓ} {B : Type κ} → Result A → (A → Result B) → Result B
ok a >>= f = f a
err e >>= f = err e
panic >>= f = panic

abbrev pub ◌>>◌ {ℓ} : {B : Type ℓ} → Result (Unit {0}) → Result B → Result B
m >> k = m >>= λ _. k

-- The rest of a function that threads a state, after a call that may return early.
abbrev pub and_then {ℓ} :
    {S : Type 0} {A B : Type ℓ} → Result A × S → (A → S → Result B × S) → Result B × S
and_then (ok a, s) f = f a s
and_then (err e, s) f = (err e, s)
and_then (panic, s) f = (panic, s)

-- `return nil, fmt.Errorf("…" + err.Error())`.
abbrev pub wrap_err {ℓ} : {A : Type ℓ} → (Error → Error) → Result A → Result A
wrap_err f (ok a) = ok a
wrap_err f (err e) = err (f e)
wrap_err f panic = panic

-- To split on a result and keep the equation.
pub Result-cases {ℓ} :
    {A : Type ℓ} (r : Result A) → ((a : A) × (r ≡ ok a)) ⊎ ((e : Error) × (r ≡ err e)) ⊎ (r ≡ panic)
Result-cases (ok a) = inl (a, refl)
Result-cases (err e) = inr (inl (e, refl))
Result-cases panic = inr (inr refl)
