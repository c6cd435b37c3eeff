-- ===== src/Base/Rows.antt =====
-- Tables as lists of rows, with the queries that the source sends to the database: the first row
-- that a test selects, the rows that it selects, and a change of the rows that it selects.
use Prim.Native.Nat.{◌≤◌}
use mathlib.Core.Path.{◌≡◌, refl}
use mathlib.Core.Bool.{Bool, true}
use mathlib.Core.Option.{Option, none, some}
use mathlib.Core.List.{List, [], ◌∷◌, ◌++◌}
use native.Mathlib.Omega.{arith}
use talos_panel.Base.Tests.{if◌then◌else◌}
use talos_panel.Base.Lists.{length}

abbrev pub map_option {ℓ κ} : {A : Type ℓ} {B : Type κ} → (A → B) → Option A → Option B
map_option f none = none
map_option f (some a) = some (f a)

module _ {ℓ} {A : Type ℓ} where
  abbrev pub find : (A → Bool) → List A → Option A
  find p [] = none
  find p (x ∷ xs) = if p x then some x else find p xs

  abbrev pub select : (A → Bool) → List A → List A
  select p [] = []
  select p (x ∷ xs) = let rest = select p xs in if p x then x ∷ rest else rest

  abbrev pub modify : (A → Bool) → (A → A) → List A → List A
  modify p f [] = []
  modify p f (x ∷ xs) = (if p x then f x else x) ∷ modify p f xs

  -- The row that `find` returns passes the test.
  pub find-holds : (p : A → Bool) (xs : List A) (x : A) → find p xs ≡ some x → p x ≡ true
  find-holds p [] x h = ground arith
  find-holds p (y ∷ ys) x h = ground (arith, find-holds p ys x)

  -- A change that keeps the test's answer does not change which row `find` returns.
  pub find-modify :
      (p q : A → Bool) (f : A → A) (xs : List A)
      → ((y : A) → p (f y) ≡ p y)
      → find p (modify q f xs) ≡ map_option (λ x. if q x then f x else x) (find p xs)
  find-modify p q f [] keep = refl
  find-modify p q f (y ∷ ys) keep = ground (arith, keep y, find-modify p q f ys keep)

  pub find-modify_self :
      (p : A → Bool) (f : A → A) (xs : List A) (x : A)
      → find p xs ≡ some x
      → ((y : A) → p (f y) ≡ p y)
      → find p (modify p f xs) ≡ some (f x)
  find-modify_self p f xs x h keep = rw (find-modify p p f xs keep, h, find-holds p xs x h) refl

  pub find-append :
      (p : A → Bool) (xs ys : List A) → find p xs ≡ none → find p (xs ++ ys) ≡ find p ys
  find-append p [] ys h = refl
  find-append p (x ∷ xs) ys h = ground (arith, find-append p xs ys)

  pub length-modify : (p : A → Bool) (f : A → A) (xs : List A) → length (modify p f xs) ≡ length xs
  length-modify p f [] = refl
  length-modify p f (x ∷ xs) = ground (arith, length-modify p f xs)

  pub length-select-le : (p : A → Bool) (xs : List A) → length (select p xs) ≤ length xs
  length-select-le p [] = omega arith
  length-select-le p (x ∷ xs) = ground (arith, length-select-le p xs)
