-- ===== src/Base/Decimal.antt =====
-- `str` of a natural number, and that it can be read back.
use Prim.Native.Nat.{ℕ, zero, suc, ◌+◌, ◌-◌, ◌*◌, ◌/◌, ◌%◌, ◌<◌}
use mathlib.Core.Path.{◌≡◌, sym, ap, ◌∙◌}
use mathlib.Core.List.{[], ◌∷◌, reverse, reverse-reverse}
use native.Mathlib.Omega.{arith}
use talos_panel.Base.Tests.{◌==◌, if◌then◌else◌}
use talos_panel.Base.Text.{Text}

-- The digits from the lowest on, on fuel.
low_digits : ℕ → ℕ → Text
low_digits zero n = []
low_digits (suc fuel) n =
    let rest = low_digits fuel (n / 10) in (b'0' + n % 10) ∷ (if n / 10 == 0 then [] else rest)

unfoldable pub number_text : ℕ → Text
unfolding low_digits
number_text n = reverse (low_digits (suc n) n)

low_value : Text → ℕ
low_value [] = 0
low_value (d ∷ ds) = (d - b'0') + 10 * low_value ds

low_value-low_digits : (fuel n : ℕ) → n < fuel → low_value (low_digits fuel n) ≡ n
unfolding low_digits low_value
low_value-low_digits zero n h = absurd (omega arith)
low_value-low_digits (suc fuel) zero h = ground arith
low_value-low_digits (suc fuel) (suc n) h =
    ground (arith, low_value-low_digits fuel (suc n / 10) (omega arith))

text_value : Text → ℕ
text_value t = low_value (reverse t)

text_value-number_text : (n : ℕ) → text_value (number_text n) ≡ n
unfolding text_value number_text
text_value-number_text n =
    ap low_value (reverse-reverse (low_digits (suc n) n))
    ∙ low_value-low_digits (suc n) n (omega arith)

-- Numbers that print alike are equal.
pub number_text-injective : (a b : ℕ) → number_text a ≡ number_text b → a ≡ b
number_text-injective a b h =
    sym (text_value-number_text a) ∙ ap text_value h ∙ text_value-number_text b
