-- ===== src/Common/Results.antt =====
-- Go's `(value, error)` results. An error is one of the program's sentinel values, which wrapping
-- by `fmt.Errorf("…: %w", err)` keeps, or another one, known by its text.
use Prim.Native.String.{String}
use mathlib.Core.Path.{◌≡◌, refl}
use mathlib.Core.Bool.{Bool, true, false}
use mathlib.Core.Logic.{◌⊎◌, inl, inr}

pub data Error : Type 0 where
  not_authorized capability_expired bad_token too_big bad_context : Error
  rate_limit_exceeded invalid_message message_expired signature_verification bad_sender : Error
  resources_not_committed resources_already_committed no_free_resources : Error
  resources_not_allocated resources_already_allocated : Error
  other_error : String → Error

pub data Result {ℓ} (A : Type ℓ) : Type ℓ where
  err : Error → Result A
  ok : A → Result A

-- `err == nil`
abbrev pub is_ok {ℓ} : {A : Type ℓ} → Result A → Bool
is_ok (err reason) = false
is_ok (ok value) = true

pub Result-cases {ℓ} :
    {A : Type ℓ} (r : Result A) → ((a : A) × (r ≡ ok a)) ⊎ ((e : Error) × (r ≡ err e))
Result-cases (err reason) = inr (reason, refl)
Result-cases (ok value) = inl (value, refl)

-- `if !cond { return err }`
abbrev pub guard : Bool → Error → Result (Unit {0})
guard false reason = err reason
guard true reason = ok tt

-- `if err != nil { return err }`
infixl 5 ◌>>=◌ ◌>>◌
abbrev pub ◌>>=◌ {ℓ κ} : {A : Type ℓ} {B : Type κ} → Result A → (A → Result B) → Result B
err reason >>= rest = err reason
ok value >>= rest = rest value

abbrev pub ◌>>◌ {ℓ} : {B : Type ℓ} → Result (Unit {0}) → Result B → Result B
step >> rest = step >>= λ done. rest

-- A step that lets the rest run.
pub >>=-eq-ok {ℓ κ} :
    {A : Type ℓ} {B : Type κ} (step : Result A) (rest : A → Result B) {b : B}
    → (step >>= rest) ≡ ok b
    → (a : A) × (step ≡ ok a) × (rest a ≡ ok b)
>>=-eq-ok (err reason) rest h = cc
>>=-eq-ok (ok value) rest h = (value, refl, h)

-- A guard that lets the rest run.
pub guard-eq-ok {ℓ} :
    {A : Type ℓ} (b : Bool) (e : Error) (m : Result A) {a : A}
    → (guard b e >> m) ≡ ok a
    → (b ≡ true) × (m ≡ ok a)
guard-eq-ok false e m h = cc
guard-eq-ok true e m h = (refl, h)
