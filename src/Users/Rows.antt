-- ===== src/Users/Rows.antt =====
-- Counting rows of a table with a primary key, before and after a change of one row.
use mathlib.Core.Path.{subst}
use talos_panel.Base.{
  ◌==◌, if◌then◌else◌, Bool-cases, count, All, find, select, modify, ℕ, ◌+◌, ◌≤◌, ◌≡◌, refl, ◌≢◌,
  inl, inr, Bool, true, not, none, some, List, [], ◌∷◌, arith,
}
use talos_panel.Models.Accounts.{User}
use talos_panel.Users.{has_id}

-- No two rows share their identifier.
abbrev pub DistinctIds : List User → Type 0
DistinctIds [] = Unit
DistinctIds (u ∷ us) = All (λ v. v.id ≢ u.id) us × DistinctIds us

count-modify_absent :
    (p : User → Bool) (f : User → User) (k : ℕ) (us : List User)
    → All (λ v. v.id ≢ k) us
    → count p (modify (has_id k) f us) ≡ count p us
count-modify_absent p f k [] h = refl
count-modify_absent p f k (u ∷ us) (h, hs) = ground (arith, h, count-modify_absent p f k us hs)

-- A change of the row `t` moves a count by what the test says of `t` and of the new row.
pub count-modify :
    (p : User → Bool) (f : User → User) (k : ℕ) (us : List User) (t : User)
    → DistinctIds us
    → find (has_id k) us ≡ some t
    → count p (modify (has_id k) f us) + (if p t then 1 else 0)
      ≡ count p us + (if p (f t) then 1 else 0)
count-modify p f k [] t d e = absurd (ground arith)
count-modify p f k (u ∷ us) t (fresh, d) e = elim (Bool-cases (u.id == k)) [
  | inl here ↦
      let same : u.id ≡ k = ground arith in
      ground (arith, count-modify_absent p f k us (subst (λ i. All (λ v. v.id ≢ i) us) same fresh))
  | inr there ↦ ground (arith, count-modify p f k us t d (ground arith))
]

count-select_absent :
    (p : User → Bool) (k : ℕ) (us : List User)
    → All (λ v. v.id ≢ k) us
    → count p (select (λ u. not (has_id k u)) us) ≡ count p us
count-select_absent p k [] h = refl
count-select_absent p k (u ∷ us) (h, hs) = ground (arith, h, count-select_absent p k us hs)

-- Without the row `t` a count loses what the test says of `t`.
pub count-select :
    (p : User → Bool) (k : ℕ) (us : List User) (t : User)
    → DistinctIds us
    → find (has_id k) us ≡ some t
    → count p (select (λ u. not (has_id k u)) us) + (if p t then 1 else 0) ≡ count p us
count-select p k [] t d e = absurd (ground arith)
count-select p k (u ∷ us) t (fresh, d) e = elim (Bool-cases (u.id == k)) [
  | inl here ↦
      let same : u.id ≡ k = ground arith in
      ground (arith, count-select_absent p k us (subst (λ i. All (λ v. v.id ≢ i) us) same fresh))
  | inr there ↦ ground (arith, count-select p k us t d (ground arith))
]

pub find-select_ne :
    (k j : ℕ) (us : List User)
    → k ≢ j
    → find (has_id j) (select (λ u. not (has_id k u)) us) ≡ find (has_id j) us
find-select_ne k j [] h = refl
find-select_ne k j (u ∷ us) h = ground (arith, find-select_ne k j us h)

pub find-select_self :
    (k : ℕ) (us : List User) → find (has_id k) (select (λ u. not (has_id k u)) us) ≡ none
find-select_self k [] = refl
find-select_self k (u ∷ us) = ground (arith, find-select_self k us)

-- A row that passes the test is counted.
pub find-count :
    (p q : User → Bool) (us : List User) (t : User)
    → find q us ≡ some t
    → p t ≡ true
    → 1 ≤ count p us
find-count p q [] t e h = absurd (ground arith)
find-count p q (u ∷ us) t e h = ground (arith, find-count p q us t)
