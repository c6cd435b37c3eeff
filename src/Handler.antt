-- ===== src/Handler.antt =====
-- Code that reads and writes a state and may raise: a request handler over the database, or a call
-- of the container runtime. What is written before a raise stays written: code that rolls back says
-- so by returning the state that it was given.
use talos_panel.Base.{
  if◌then◌else◌, ℕ, String, Bool, Option, none, some, ◌≡◌, inl, inr, arith, refl, Option-cases,
}
use talos_panel.Http.{Failure, Result, Result-cases}
use talos_panel.Models.Tables.{Database}

abbrev pub Exec : Type 0 → Type 0 → Type 0
Exec S A = S → Result A × S

abbrev pub Handler : Type 0 → Type 0
Handler A = Exec Database A

infixl 5 ◌>>=◌ ◌>>◌
abbrev pub ◌>>=◌ : {S A B : Type 0} → Exec S A → (A → Exec S B) → Exec S B
◌>>=◌ m f s =
    let (r, s') = m s in elim r [ Result.ok a ↦ f a s' | Result.err e ↦ (Result.err e, s') ]

abbrev pub ◌>>◌ : {S B : Type 0} → Exec S (Unit {0}) → Exec S B → Exec S B
m >> k = m >>= λ _. k

module _ {S : Type 0} where
  abbrev pub pure : {A : Type 0} → A → Exec S A
  pure a s = (Result.ok a, s)

  -- A check, or any computation that reads no state.
  abbrev pub lift : {A : Type 0} → Result A → Exec S A
  lift r s = (r, s)

  abbrev pub fail : {A : Type 0} → Failure → Exec S A
  fail e s = (Result.err e, s)

  -- `if test: raise HTTPException(status, detail)`.
  abbrev pub refuse_if : Bool → ℕ → String → Exec S (Unit {0})
  refuse_if test status detail s =
      (if test then Result.err (Failure.http status detail) else Result.ok tt, s)

  abbrev pub gets : {A : Type 0} → (S → A) → Exec S A
  gets f s = (Result.ok (f s), s)

  -- A query that must give a row, or the code raises.
  abbrev pub expect : {A : Type 0} → (S → Option A) → ℕ → String → Exec S A
  expect query status detail s = elim (query s) [
    | none ↦ (Result.err (Failure.http status detail), s)
    | some a ↦ (Result.ok a, s)
  ]

  abbrev pub write : (S → S) → Exec S (Unit {0})
  write f s = (Result.ok tt, f s)

-- A chain that succeeds has a first step that succeeds.
pub bind_inv :
    {S A B : Type 0} (m : Exec S A) (f : A → Exec S B) (s s' : S) (b : B)
    → (m >>= f) s ≡ (Result.ok b, s')
    → (a : A) × (t : S) × (m s ≡ (Result.ok a, t)) × (f a t ≡ (Result.ok b, s'))
bind_inv m f s s' b h = elim (Result-cases (m s).0) [
  | inl (e, q) ↦ absurd (ground arith)
  | inr (a, q) ↦ (a, (m s).1, ground arith, ground arith)
]

-- The first step of a chain, when it is known how it ends.
pub bind-ok :
    {S A B : Type 0} (m : Exec S A) (f : A → Exec S B) (s s' : S) (a : A)
    → (m s).0 ≡ Result.ok a
    → (m s).1 ≡ s'
    → (m >>= f) s ≡ f a s'
bind-ok m f s s' a h same = rw (h, same, ◌>>=◌) refl

pub bind-err :
    {S A B : Type 0} (m : Exec S A) (f : A → Exec S B) (s s' : S) (e : Failure)
    → (m s).0 ≡ Result.err e
    → (m s).1 ≡ s'
    → (m >>= f) s ≡ (Result.err e, s')
bind-err m f s s' e h same = rw (h, same, ◌>>=◌) refl

pub expect_inv :
    {S A : Type 0} (query : S → Option A) (status : ℕ) (detail : String) (s s' : S) (a : A)
    → expect query status detail s ≡ (Result.ok a, s')
    → (query s ≡ some a) × (s' ≡ s)
expect_inv query status detail s s' a h = elim (Option-cases (query s)) [
  | inl k ↦ absurd (ground arith)
  | inr (b, k) ↦ (ground arith, ground arith)
]
