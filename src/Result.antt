-- ===== src/Result.antt =====
-- Go's `error` values and the pair of a value and an error.
use kidp.Prelude.{ℕ, String, Bool, true, false, ◌≡◌, refl, ◌⊎◌, inl, inr}

-- An error of the API server says whether it is a NotFound; `errorf` is `fmt.Errorf` without `%w`,
-- `errorf_int` one with a number, and `wrapf` one with `%w`.
pub data Error : Type 0 where
  not_found failed errorf : String → Error
  errorf_int : String → ℕ → Error
  wrapf : String → Error → Error

pub data Result {ℓ} (A : Type ℓ) : Type ℓ where
  ok : A → Result A
  err : Error → Result A

-- `apierrors.IsNotFound` on an error of the client
abbrev pub is_not_found : Error → Bool
is_not_found (not_found m) = true
is_not_found _ = false

-- A split that keeps the equation.
pub Result-cases {ℓ} :
    {A : Type ℓ} (answer : Result A)
    → ((value : A) × (answer ≡ ok value)) ⊎ ((failure : Error) × (answer ≡ err failure))
Result-cases (ok value) = inl (value, refl)
Result-cases (err failure) = inr (failure, refl)
