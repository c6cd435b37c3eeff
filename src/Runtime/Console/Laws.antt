-- ===== src/Runtime/Console/Laws.antt =====
-- What reaches the console, and what is cut from its answers.
use mathlib.Core.Path.{subst}
use talos_panel.Base.{
  ltb, Option-cases, length, any, ℕ, zero, suc, ◌≤◌, ◌<◌, ◌≡◌, refl, ap, ◌∙◌, ◌≢◌, inl, inr, false,
  some, [], ◌∷◌, arith,
}
use talos_panel.Base.Text.{Text, text_eq, strip}
use talos_panel.Runtime.Console.{
  drop_slash, Normalized, normalize_console_command, escape_final, escape_body, escape_at,
  strip_escapes,
}

-- A command that is accepted has between 1 and 256 characters, and none below the space.
pub normalize_console_command_bounds :
    (text c : Text)
    → normalize_console_command text ≡ Normalized.command c
    → (c ≢ []) × (length c ≤ 256) × (any (λ d. ltb d 32) c ≡ false)
unfolding normalize_console_command
normalize_console_command_bounds text c h =
    let n = drop_slash (strip text) in
    let same : n ≡ c = ground arith in
    let long : ltb 256 (length n) ≡ false = ground arith in
    let full : text_eq n [] ≡ false = ground arith in
    let plain : any (λ d. ltb d 32) n ≡ false = ground arith in
    (
      λ e. cc (subst (λ t. text_eq t [] ≡ false) (same ∙ e) full),
      subst (λ t. length t ≤ 256) same (ground arith),
      subst (λ t. any (λ d. ltb d 32) t ≡ false) same plain,
    )

escape_final-length : (s r : Text) → escape_final s ≡ some r → length r < length s
unfolding escape_final
escape_final-length [] r h = absurd (ground arith)
escape_final-length (c ∷ s) r h = ground (arith, escape_final-length s r)

escape_body-length : (s r : Text) → escape_body s ≡ some r → length r < length s
unfolding escape_body
escape_body-length [] r h = absurd (ground arith)
escape_body-length (c ∷ s) r h =
    ground (arith, escape_body-length s r, escape_final-length (c ∷ s) r)

escape_at-length : (s r : Text) → escape_at s ≡ some r → length r < length s
unfolding escape_at
escape_at-length (c ∷ d ∷ s) r h = ground (arith, escape_body-length s r)
escape_at-length (c ∷ []) r h = absurd (ground arith)
escape_at-length [] r h = absurd (ground arith)

-- More fuel than the text is long changes nothing.
pub strip_escapes_fuel :
    (fuel more : ℕ) (s : Text)
    → length s ≤ fuel
    → length s ≤ more
    → strip_escapes fuel s ≡ strip_escapes more s
unfolding strip_escapes
strip_escapes_fuel zero zero s h k = refl
strip_escapes_fuel zero (suc more) [] h k = refl
strip_escapes_fuel zero (suc more) (c ∷ s) h k = absurd (omega arith)
strip_escapes_fuel (suc fuel) zero [] h k = refl
strip_escapes_fuel (suc fuel) zero (c ∷ s) h k = absurd (omega arith)
strip_escapes_fuel (suc fuel) (suc more) [] h k = refl
strip_escapes_fuel (suc fuel) (suc more) (c ∷ s) h k = elim (Option-cases (escape_at (c ∷ s))) [
  | inl none' ↦
      rw (none', strip_escapes)
        (ap (λ t. c ∷ t) (strip_escapes_fuel fuel more s (omega arith) (omega arith)))
  | inr (r, e) ↦
      let shorter = escape_at-length (c ∷ s) r e in
      rw (e, strip_escapes) (strip_escapes_fuel fuel more r (omega arith) (omega arith))
]
