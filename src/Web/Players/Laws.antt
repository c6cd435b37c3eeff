-- ===== src/Web/Players/Laws.antt =====
-- The commands of the player actions, as the console reads them.
use mathlib.Core.List.{reverse, reverse-append}
use mathlib.Core.Path.{subst}
use talos_panel.Base.{
  sym, ltb, leb, ◌==◌, Bool-cases, length, any, all, All, find, ℕ, ◌≤◌, ◌≡◌, refl, inl, inr, Bool,
  true, false, not, ◌&&◌, ◌||◌, some, List, [], ◌∷◌, ◌++◌, arith, length-append, String, str_eq,
}
use talos_panel.Base.Strip.{Solid, strip-Solid, Solid-append, strip-cases, length-strip}
use talos_panel.Base.Text.{Text, codes, is_space, strip, text_eq}
use talos_panel.Runtime.Console.{Normalized, normalize_console_command, drop_slash}
use talos_panel.Web.Players.{
  is_name_character, player_actions, validate_player_name, PlayerAction, action, player_command,
}

-- What the console needs of the text in front of the name.
has_good_head : Text → Bool
has_good_head [] = false
has_good_head (c ∷ s) = not (is_space c) && not (c == b'/')

is_good_prefix : Text → Bool
unfolding has_good_head
is_good_prefix s = has_good_head s && leb (length s) 17 && not (any (λ c. ltb c 32) s)

-- The texts of the table are such.
good_actions : All (λ a. is_good_prefix (codes a.command) ≡ true) player_actions
unfolding is_good_prefix
good_actions = (refl, (refl, (refl, (refl, (refl, (refl, (refl, tt)))))))

find-All :
    {A : Type 0} (P : A → Type 0) (p : A → Bool) (xs : List A) (x : A)
    → All P xs
    → find p xs ≡ some x
    → P x
find-All P p [] x h e = absurd (ground arith)
find-All P p (y ∷ ys) x (hy, hys) e = elim (Bool-cases (p y)) [
  | inl k ↦ let same : y ≡ x = ground arith in subst P same hy
  | inr k ↦ find-All P p ys x hys (ground arith)
]

any-append : (p : ℕ → Bool) (s t : Text) → any p (s ++ t) ≡ (any p s || any p t)
any-append p [] t = refl
any-append p (c ∷ s) t = ground (arith, any-append p s t)

plain-name : (s : Text) → all is_name_character s ≡ true → any (λ c. ltb c 32) s ≡ false
plain-name [] h = refl
plain-name (c ∷ s) h = ground (arith, plain-name s)

both_false : (a b : Bool) → (not a && not b) ≡ true → (a ≡ false) × (b ≡ false)
both_false a b h = ground arith

good_head-Solid : (s : Text) → has_good_head s ≡ true → Solid s
unfolding has_good_head
good_head-Solid [] h = absurd (cc h)
good_head-Solid (c ∷ s) h = (c, s, refl, (both_false (is_space c) (c == b'/') h).0)

drop_slash-good_head : (s : Text) → has_good_head s ≡ true → drop_slash s ≡ s
unfolding has_good_head
drop_slash-good_head [] h = refl
drop_slash-good_head (c ∷ s) h = rw (both_false (is_space c) (c == b'/') h).1 refl

good_head-full : (s : Text) → has_good_head s ≡ true → text_eq s [] ≡ false
unfolding has_good_head
good_head-full [] h = absurd (cc h)
good_head-full (c ∷ s) h = refl

-- A text that begins with a good character and ends with no space, of at most 256 characters and with
-- no control character, is taken as it is.
accepted :
    (s : Text)
    → has_good_head s ≡ true
    → Solid (reverse s)
    → length s ≤ 256
    → any (λ c. ltb c 32) s ≡ false
    → normalize_console_command s ≡ Normalized.command s
unfolding normalize_console_command
accepted s h solid short plain =
    let same = strip-Solid s (good_head-Solid s h) solid in
    let long : ltb 256 (length s) ≡ false = ground arith in
    rw (same, drop_slash-good_head s h, good_head-full s h, long, plain) refl

good_head-append : (s t : Text) → has_good_head s ≡ true → has_good_head (s ++ t) ≡ true
unfolding has_good_head
good_head-append [] t h = absurd (cc h)
good_head-append (c ∷ s) t h = h

-- The parts of `is_good_prefix`.
good_prefix-parts :
    (s : Text)
    → is_good_prefix s ≡ true
    → (has_good_head s ≡ true) × (length s ≤ 17) × (any (λ c. ltb c 32) s ≡ false)
unfolding is_good_prefix
good_prefix-parts s h = (ground arith, ground arith, ground arith)

Solid-reverse-append : (s t : Text) → Solid (reverse t) → Solid (reverse (s ++ t))
Solid-reverse-append s t h =
    subst Solid (sym (reverse-append s t)) (Solid-append (reverse t) (reverse s) h)

-- A valid name has 1 to 16 characters, ends with no space, and has no control character.
validate_player_name-parts :
    (player_name name : Text)
    → validate_player_name player_name ≡ some name
    → (length name ≤ 16) × Solid (reverse name) × (any (λ c. ltb c 32) name ≡ false)
unfolding validate_player_name
validate_player_name-parts player_name name h =
    let s = strip player_name in
    elim (Bool-cases (leb 1 (length s) && leb (length s) 16 && all is_name_character s)) [
      | inr bad ↦ absurd (ground arith)
      | inl good ↦
          let same : s ≡ name = ground arith in
          let plain = plain-name s (ground arith) in
          elim (strip-cases player_name) [
            | inl empty ↦ absurd (ground arith)
            | inr solid ↦ (
              subst (λ t. length t ≤ 16) same (ground arith),
              subst (λ t. Solid (reverse t)) same solid,
              subst (λ t. any (λ c. ltb c 32) t ≡ false) same plain,
            )
          ]
    ]

-- A command with a name at its end, or a reason behind it, is accepted.
name-accepted :
    (prefix name : Text)
    → is_good_prefix prefix ≡ true
    → (length name ≤ 16) × Solid (reverse name) × (any (λ c. ltb c 32) name ≡ false)
    → normalize_console_command (prefix ++ name) ≡ Normalized.command (prefix ++ name)
name-accepted prefix name good (short, solid, plain) =
    let (head, length', plain') = good_prefix-parts prefix good in
    accepted (prefix ++ name) (good_head-append prefix name head)
      (Solid-reverse-append prefix name solid) (omega (arith, length-append prefix name))
      (rw (any-append (λ c. ltb c 32) prefix name, plain', plain) refl)

reason-accepted :
    (prefix name reason : Text)
    → is_good_prefix prefix ≡ true
    → (length name ≤ 16) × Solid (reverse name) × (any (λ c. ltb c 32) name ≡ false)
    → Solid (reverse reason)
    → length reason ≤ 120
    → any (λ c. ltb c 32) reason ≡ false
    → let s = (prefix ++ name) ++ (32 ∷ reason) in
      normalize_console_command s ≡ Normalized.command s
reason-accepted prefix name reason good (short, solid, plain) solid' short' clean =
    let (head, length', plain') = good_prefix-parts prefix good in
    accepted ((prefix ++ name) ++ (32 ∷ reason))
      (good_head-append (prefix ++ name) (32 ∷ reason) (good_head-append prefix name head))
      (Solid-reverse-append (prefix ++ name) (32 ∷ reason)
        (Solid-reverse-append (32 ∷ []) reason solid'))
      (omega (arith, length-append (prefix ++ name) (32 ∷ reason), length-append prefix name))
      (rw
        (
          any-append (λ c. ltb c 32) (prefix ++ name) (32 ∷ reason),
          any-append (λ c. ltb c 32) prefix name,
          plain',
          plain,
        )
        clean)

-- The command of a player action, for a valid name and a reason of at most 120 characters without
-- control characters, is never refused by the console for its text and is sent as it is.
pub player_command-accepted :
    (player_name name reason : Text) (action : String) (a : PlayerAction)
    → validate_player_name player_name ≡ some name
    → find (λ b. str_eq b.name action) player_actions ≡ some a
    → length reason ≤ 120
    → any (λ c. ltb c 32) (strip reason) ≡ false
    → let command = player_command a name (strip reason) in
      normalize_console_command command ≡ Normalized.command command
unfolding player_command
player_command-accepted player_name name reason action a valid chosen short clean =
    let good =
      find-All (λ b. is_good_prefix (codes b.command) ≡ true) (λ b. str_eq b.name action)
        player_actions a good_actions chosen in
    let parts = validate_player_name-parts player_name name valid in
    elim (Bool-cases (a.takes_reason && not (text_eq (strip reason) []))) [
      | inr no_reason ↦ rw no_reason (name-accepted (codes a.command) name good parts)
      | inl with_reason ↦ elim (strip-cases reason) [
        | inl empty ↦ absurd (ground arith)
        | inr solid ↦ rw with_reason (
            reason-accepted (codes a.command) name (strip reason) good parts solid
              (omega (arith, length-strip reason)) clean)
      ]
    ]
