-- ===== src/Base/Strip.antt =====
-- What `str.strip` leaves: a text that begins and ends with no space is left as it is.
use Prim.Native.Nat.{ℕ, ◌≤◌}
use mathlib.Core.Path.{◌≡◌, refl, sym, ap, ◌∙◌, subst}
use mathlib.Core.Logic.{◌⊎◌, inl, inr}
use mathlib.Core.Bool.{false}
use mathlib.Core.List.{[], ◌∷◌, ◌++◌, reverse, reverse-cons, reverse-reverse}
use native.Mathlib.Omega.{arith}
use talos_panel.Base.Tests.{Bool-cases}
use talos_panel.Base.Lists.{length, length-append}
use talos_panel.Base.Text.{Text, is_space, lstrip, strip}

abbrev pub Solid : Text → Type 0
Solid s = (c : ℕ) × (t : Text) × (s ≡ c ∷ t) × (is_space c ≡ false)

lstrip-cases : (s : Text) → (lstrip s ≡ []) ⊎ Solid (lstrip s)
lstrip-cases [] = inl refl
lstrip-cases (c ∷ s) = elim (Bool-cases (is_space c)) [
  | inl k ↦ rw k (lstrip-cases s)
  | inr k ↦ inr (c, s, rw k refl, k)
]

lstrip-Solid : (s : Text) → Solid s → lstrip s ≡ s
lstrip-Solid s (c, t, e, k) = rw (e, k) refl

pub Solid-append : (s t : Text) → Solid s → Solid (s ++ t)
Solid-append s t (c, r, e, k) = (c, r ++ t, ap (λ x. x ++ t) e, k)

pub strip-Solid : (s : Text) → Solid s → Solid (reverse s) → strip s ≡ s
strip-Solid s h k = rw (lstrip-Solid s h, lstrip-Solid (reverse s) k) (reverse-reverse s)

-- What is stripped ends with no space, if anything is left.
pub strip-cases : (s : Text) → (strip s ≡ []) ⊎ Solid (reverse (strip s))
strip-cases s = elim (lstrip-cases (reverse (lstrip s))) [
  | inl k ↦ inl (ap reverse k)
  | inr k ↦ inr (subst Solid (sym (reverse-reverse (lstrip (reverse (lstrip s))))) k)
]

length-lstrip : (s : Text) → length (lstrip s) ≤ length s
length-lstrip [] = omega arith
length-lstrip (c ∷ s) = ground (arith, length-lstrip s)

pub length-reverse : (s : Text) → length (reverse s) ≡ length s
length-reverse [] = refl
length-reverse (c ∷ s) =
    ap (λ t. length t) (reverse-cons c s)
    ∙ length-append (reverse s) (c ∷ [])
    ∙ omega (arith, length-reverse s)

pub length-strip : (s : Text) → length (strip s) ≤ length s
length-strip s = omega (
  arith,
  length-reverse (lstrip (reverse (lstrip s))),
  length-lstrip (reverse (lstrip s)),
  length-reverse (lstrip s),
  length-lstrip s,
)
