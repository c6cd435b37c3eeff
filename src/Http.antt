-- ===== src/Http.antt =====
-- What a handler of talos_panel raises: an `HTTPException` with its status and detail, or an
-- exception of another class, by its name, which the application answers with status 500.
use talos_panel.Base.{ℕ, String, Bool, true, false, ◌≡◌, refl, ◌⊎◌, inl, inr}

pub data Failure : Type 0 where
  http : ℕ → String → Failure
  crash : String → Failure

pub data Result {ℓ} (A : Type ℓ) : Type ℓ where
  ok : A → Result A
  err : Failure → Result A

infixl 5 ◌>>=◌ ◌>>◌
abbrev pub ◌>>=◌ {ℓ κ} : {A : Type ℓ} {B : Type κ} → Result A → (A → Result B) → Result B
Result.ok a >>= f = f a
Result.err e >>= f = Result.err e

abbrev pub ◌>>◌ {ℓ} : {B : Type ℓ} → Result (Unit {0}) → Result B → Result B
m >> k = m >>= λ _. k

-- `if test: raise failure`.
abbrev pub raise_if : Bool → Failure → Result (Unit {0})
raise_if true e = Result.err e
raise_if false e = Result.ok tt

pub Result-cases {ℓ} :
    {A : Type ℓ} (r : Result A)
    → ((e : Failure) × (r ≡ Result.err e)) ⊎ ((a : A) × (r ≡ Result.ok a))
Result-cases (Result.err e) = inl (e, refl)
Result-cases (Result.ok a) = inr (a, refl)
