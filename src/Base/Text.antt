-- ===== src/Base/Text.antt =====
-- Text that the program walks is the list of its code points. `Unicode` holds what the standard
-- library takes from the Unicode tables, with its behaviour on ASCII.
use Prim.Native.Char.{code}
use Prim.Native.Nat.{ℕ, ◌+◌, ◌-◌, ◌<◌}
use Prim.Native.String.{String}
use mathlib.Core.Path.{◌≡◌, refl}
use mathlib.Core.Logic.{◌↔◌}
use mathlib.Core.Option.{Option, none, some}
use mathlib.Core.Bool.{Bool, true, false, ◌&&◌, ◌||◌}
use mathlib.Core.List.{List, [], ◌∷◌, ◌++◌, reverse, map}
use native.Mathlib.Omega.{arith}
use talos_panel.Base.Lists.{all}
use talos_panel.Base.Tests.{leb, ltb, ◌==◌, if◌then◌else◌}

abbrev pub Text : Type 0
Text = List ℕ

abbrev pub codes : String → Text
codes String.[] = []
codes (String.◌∷◌ c s) = code c ∷ codes s

abbrev pub text_eq : Text → Text → Bool
text_eq [] [] = true
text_eq (a ∷ s) (b ∷ t) = a == b && text_eq s t
text_eq _ _ = false

pub text_eq_iff : (s t : Text) → (text_eq s t ≡ true) ↔ (s ≡ t)
text_eq_iff [] [] = (λ _. refl, λ _. refl)
text_eq_iff [] (b ∷ t) = (λ h. cc, λ h. cc)
text_eq_iff (a ∷ s) [] = (λ h. cc, λ h. cc)
text_eq_iff (a ∷ s) (b ∷ t) = ground (arith, text_eq_iff s t)

-- `str.startswith`.
abbrev pub has_prefix : Text → Text → Bool
has_prefix s [] = true
has_prefix [] (b ∷ t) = false
has_prefix (a ∷ s) (b ∷ t) = a == b && has_prefix s t

-- What `str.strip` removes at both ends: the characters for which `str.isspace` holds.
abbrev pub is_space : ℕ → Bool
is_space c =
    leb 9 c && leb c 13
    || leb 28 c && leb c 32
    || c == 133
    || c == 160
    || c == 5760
    || leb 8192 c && leb c 8202
    || c == 8232
    || c == 8233
    || c == 8239
    || c == 8287
    || c == 12288

abbrev pub lstrip : Text → Text
lstrip [] = []
lstrip (c ∷ s) = let rest = lstrip s in if is_space c then rest else c ∷ s

abbrev pub rstrip : Text → Text
rstrip s = reverse (lstrip (reverse s))

abbrev pub strip : Text → Text
strip s = rstrip (lstrip s)

abbrev pub is_lower_ascii : ℕ → Bool
is_lower_ascii c = leb b'a' c && leb c b'z'

abbrev pub is_upper_ascii : ℕ → Bool
is_upper_ascii c = leb b'A' c && leb c b'Z'

abbrev pub is_digit_ascii : ℕ → Bool
is_digit_ascii c = leb b'0' c && leb c b'9'

-- `str.upper` and `str.isalnum` of one character, and `str.lower`, which looks at more than one: a
-- sigma at the end of a word has a lower case of its own.
pub record Unicode : Type 0 where
  pub upper : ℕ → Text
  pub lower : Text → Text
  pub is_alnum : ℕ → Bool
  -- The value of a decimal digit, which `\d` matches and `int` reads.
  pub decimal : ℕ → Option ℕ
  pub upper_ascii :
      (c : ℕ) → c < 128 → upper c ≡ (if is_lower_ascii c then (c - 32) ∷ [] else c ∷ [])
  pub lower_ascii :
      (s : Text)
      → all (λ c. ltb c 128) s ≡ true
      → lower s ≡ map (λ c. if is_upper_ascii c then c + 32 else c) s
  pub is_alnum_ascii :
      (c : ℕ) → c < 128 → is_alnum c ≡ (is_lower_ascii c || is_upper_ascii c || is_digit_ascii c)
  pub decimal_ascii :
      (c : ℕ) → c < 128 → decimal c ≡ (if is_digit_ascii c then some (c - 48) else none)

-- A table that knows ASCII alone.
abbrev pub ascii : Unicode
ascii = record {
  upper = λ c. if is_lower_ascii c then (c - 32) ∷ [] else c ∷ [];
  lower = λ s. map (λ c. if is_upper_ascii c then c + 32 else c) s;
  is_alnum = λ c. is_lower_ascii c || is_upper_ascii c || is_digit_ascii c;
  decimal = λ c. if is_digit_ascii c then some (c - 48) else none;
  upper_ascii = λ c h. refl;
  lower_ascii = λ s h. refl;
  is_alnum_ascii = λ c h. refl;
  decimal_ascii = λ c h. refl;
}

onto_head : ℕ → List Text → List Text
onto_head c [] = (c ∷ []) ∷ []
onto_head c (t ∷ ts) = (c ∷ t) ∷ ts

-- `str.split` at one character.
unfoldable pub split_on : ℕ → Text → List Text
unfolding onto_head
split_on d [] = [] ∷ []
split_on d (c ∷ s) = let rest = split_on d s in if c == d then [] ∷ rest else onto_head c rest

abbrev pub flat_map : (ℕ → Text) → Text → Text
flat_map f [] = []
flat_map f (c ∷ s) = f c ++ flat_map f s
