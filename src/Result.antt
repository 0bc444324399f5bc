-- ===== src/Result.antt =====
-- Python's exceptions as values, and methods that change a state and may raise.
use webhook_relay_api.Prelude.{ℕ, String, ◌≡◌, refl, Bool, true, false, ◌⊎◌, inl, inr}

-- The exceptions that the program raises, lets through, or catches.
pub data Error : Type 0 where
  http_exception : ℕ → String → Error
  integrity_error unicode_decode_error type_error value_error overflow_error : Error
  runtime_error : String → Error
  -- any other exception of a library, by its name
  other_error : String → Error

pub data Result {ℓ} (T : Type ℓ) : Type ℓ where
  ok : T → Result T
  err : Error → Result T

module _ {ℓ κ} {T : Type ℓ} {U : Type κ} where
  infixl 5 ◌>>=◌
  abbrev pub ◌>>=◌ : Result T → (T → Result U) → Result U
  err exception >>= continue = err exception
  ok value >>= continue = continue value

infixl 5 ◌>>◌
-- A check, and what follows it.
abbrev pub ◌>>◌ {ℓ} : {C : Type ℓ} → Result (Unit {0}) → Result C → Result C
check >> rest = check >>= λ passed. rest

-- `if test: raise e`
abbrev pub raise_if : Bool → Error → Result (Unit {0})
raise_if false exception = ok tt
raise_if true exception = err exception

-- A method that returns has returned at each of its steps.
pub >>=-eq-ok {ℓ κ} :
    {T : Type ℓ} {U : Type κ} (step : Result T) (continue : T → Result U) {result : U}
    → (step >>= continue) ≡ ok result
    → (value : T) × (step ≡ ok value) × (continue value ≡ ok result)
>>=-eq-ok (err exception) continue returned = cc
>>=-eq-ok (ok value) continue returned = (value, refl, returned)

pub Result-cases {ℓ} :
    {A : Type ℓ} (m : Result A) → ((a : A) × (m ≡ ok a)) ⊎ ((e : Error) × (m ≡ err e))
Result-cases (ok a) = inl (a, refl)
Result-cases (err e) = inr (e, refl)
