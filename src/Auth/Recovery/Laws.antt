-- ===== src/Auth/Recovery/Laws.antt =====
-- What a use of a recovery code takes from the stored hashes, and how generated codes are read.
use mathlib.Core.Path.{subst}
use native.Mathlib.Nat.{zero-add}
use talos_panel.Auth.Recovery.{
  Library, remove_first, normalize_recovery_code, recovery_code_hash, consume_recovery_code, group,
  raw_code, raw_codes, recovery_code_length, generate_recovery_codes, recovery_code_count, onto,
}
use talos_panel.Auth.Requests.{is_ascii}
use talos_panel.Base.{
  if◌then◌else◌, Bool-cases, Option-cases, count, All, ℕ, ◌+◌, ◌<◌, ◌≡◌, refl, ap, ◌∙◌, inl, inr,
  true, false, ◌||◌, Option, none, some, List, [], ◌∷◌, ◌++◌, arith, zero, suc, ◌*◌, map, any, sym,
  length, all, ◌&&◌,
}
use talos_panel.Base.Text.{Text, text_eq, text_eq_iff, is_upper_ascii, is_digit_ascii}
use talos_panel.Http.{Result, Result-cases}

abbrev occurrences : Text → List Text → ℕ
occurrences k = count (λ x. text_eq x k)

onto_inv :
    (x : Text) (r : Result (Option (List Text))) (ys : List Text)
    → onto x r ≡ Result.ok (some ys)
    → (zs : List Text) × (r ≡ Result.ok (some zs)) × (ys ≡ x ∷ zs)
onto_inv x (Result.err e) ys h = absurd (cc h)
onto_inv x (Result.ok none) ys h = absurd (cc h)
onto_inv x (Result.ok (some zs)) ys h = (zs, refl, sym (cc h))

remove_first_count :
    (h k : Text) (xs ys : List Text)
    → remove_first h xs ≡ Result.ok (some ys)
    → occurrences k ys + (if text_eq h k then 1 else 0) ≡ occurrences k xs
unfolding remove_first
remove_first_count h k [] ys e = absurd (ground arith)
remove_first_count h k (x ∷ xs) ys e = elim (Bool-cases (is_ascii x && is_ascii h)) [
  | inr raises ↦ absurd (cc (rw (raises, remove_first) at e))
  | inl fine ↦ elim (Bool-cases (text_eq x h)) [
    | inl same ↦
        let eq : x ≡ h = (text_eq_iff x h).0 same in
        let this : xs ≡ ys = ground arith in ground (arith, eq, text_eq_iff x h)
    | inr differ ↦
        let (zs, found, there) =
          onto_inv x (remove_first h xs) ys (rw (fine, differ, remove_first) at e) in
        rw there (ground (arith, remove_first_count h k xs zs found))
  ]
]

-- The code at an index.
abbrev pub entry : ℕ → List Text → Text
entry i [] = []
entry zero (x ∷ xs) = x
entry (suc i) (x ∷ xs) = entry i xs

-- The values of `F` at the first draws of `n` codes, from `k` on.
spread : (ℕ → Text) → ℕ → ℕ → List Text
spread F zero k = []
spread F (suc n) k = F k ∷ spread F n (k + recovery_code_length)

map-raw_codes :
    (f : Text → Text) (choice : ℕ → ℕ) (n k : ℕ)
    → map f (raw_codes choice n k) ≡ spread (λ k. f (raw_code choice k)) n k
unfolding raw_codes spread
map-raw_codes f choice zero k = refl
map-raw_codes f choice (suc n) k =
    ap (λ r. f (raw_code choice k) ∷ r) (map-raw_codes f choice n (k + recovery_code_length))

any-spread :
    (F : ℕ → Text) (n k i : ℕ) → i < n → any (λ x. text_eq x (F (k + i * 16))) (spread F n k) ≡ true
unfolding spread
any-spread F zero k i h = absurd (omega arith)
any-spread F (suc n) k zero h =
    let e : k + 0 * 16 ≡ k = omega arith in rw e (ground (arith, text_eq_iff (F k) (F k)))
any-spread F (suc n) k (suc i) h =
    let e : k + suc i * 16 ≡ k + recovery_code_length + i * 16 = omega arith in
    subst (λ m. any (λ x. text_eq x (F m)) (spread F (suc n) k) ≡ true) (sym e)
      (ground (arith, any-spread F n (k + recovery_code_length) i (omega arith)))

-- The hash is found where it is listed among hashes that are ASCII.
remove_first_of_any :
    (h : Text) (xs : List Text)
    → is_ascii h ≡ true
    → all is_ascii xs ≡ true
    → any (λ x. text_eq x h) xs ≡ true
    → (rest : List Text) × (remove_first h xs ≡ Result.ok (some rest))
unfolding remove_first
remove_first_of_any h [] a b e = absurd (ground arith)
remove_first_of_any h (x ∷ xs) a b e =
    let here : (is_ascii x && is_ascii h) ≡ true = ground arith in
    elim (Bool-cases (text_eq x h)) [
      | inl same ↦ (xs, rw (here, same, remove_first) refl)
      | inr differ ↦
          let (ys, found) = remove_first_of_any h xs a (ground arith) (ground arith) in
          (x ∷ ys, rw (here, differ, found, remove_first) refl)
    ]

module _ (lib : Library) where
  -- A use that is accepted takes the hash of the supplied code from the stored list once, and
  -- leaves every other hash as often as it was.
  pub consume_takes_one :
      (hashes : List Text) (supplied : Text) (left : Option Text)
      → consume_recovery_code lib (some (lib.dumps hashes)) supplied ≡ Result.ok (true, left)
      → (rest : List Text) × (left ≡ some (lib.dumps rest))
        × ((k : Text)
            → count (λ x. text_eq x k) rest
                + (if text_eq (recovery_code_hash lib (normalize_recovery_code lib supplied)) k
                    then 1
                    else 0)
              ≡ count (λ x. text_eq x k) hashes)
  unfolding consume_recovery_code
  consume_takes_one hashes supplied left h =
      let target = recovery_code_hash lib (normalize_recovery_code lib supplied) in
      elim (Result-cases (remove_first target hashes)) [
        | inl (e, raises) ↦ absurd (ground (arith, lib.loads-dumps hashes))
        | inr (o, k) ↦ elim (Option-cases o) [
          | inl gone ↦ absurd (ground (arith, lib.loads-dumps hashes))
          | inr (rest, found) ↦ (
            rest,
            ground (arith, lib.loads-dumps hashes),
            λ k'. remove_first_count target k' hashes rest (k ∙ ap (λ x. Result.ok x) found),
          )
        ]
      ]

  consume_found :
      (hashes : List Text) (supplied : Text) (rest : List Text)
      → length (normalize_recovery_code lib supplied) ≡ recovery_code_length
      → remove_first (recovery_code_hash lib (normalize_recovery_code lib supplied)) hashes
        ≡ Result.ok (some rest)
      → consume_recovery_code lib (some (lib.dumps hashes)) supplied
        ≡ Result.ok (true, some (lib.dumps rest))
  unfolding consume_recovery_code
  consume_found hashes supplied rest len found =
      ground
        (arith, lib.loads-dumps hashes, lib.dumps-ne-nil hashes, text_eq_iff (lib.dumps hashes) [])

  -- A code that is refused leaves the stored column as it was, whatever the column holds.
  pub refused_keeps :
      (column : Option Text) (supplied : Text) (left : Option Text)
      → consume_recovery_code lib column supplied ≡ Result.ok (false, left)
      → left ≡ column
  unfolding consume_recovery_code
  refused_keeps none supplied left h = ground arith
  refused_keeps (some column) supplied left h = ground arith

  -- `RECOVERY_CODE_ALPHABET`.
  abbrev pub IsAlphabet : ℕ → Type 0
  IsAlphabet c = (is_upper_ascii c || is_digit_ascii c) ≡ true

  normalize-cons :
      (c : ℕ) (s : Text)
      → IsAlphabet c
      → normalize_recovery_code lib (c ∷ s) ≡ c ∷ normalize_recovery_code lib s
  unfolding normalize_recovery_code
  normalize-cons c s h =
      let small : c < 128 = ground arith in
      let up : lib.unicode.upper c ≡ c ∷ [] = lib.unicode.upper_ascii c small ∙ ground arith in
      let word : lib.unicode.is_alnum c ≡ true =
        lib.unicode.is_alnum_ascii c small ∙ ground arith in
      rw (up, word)

  normalize_dash :
      (s : Text) → normalize_recovery_code lib (b'-' ∷ s) ≡ normalize_recovery_code lib s
  unfolding normalize_recovery_code
  normalize_dash s =
      rw (lib.unicode.upper_ascii b'-' (omega arith))
        (rw (lib.unicode.is_alnum_ascii b'-' (omega arith)))

  normalize-append :
      (s t : Text)
      → All IsAlphabet s
      → normalize_recovery_code lib (s ++ t) ≡ s ++ normalize_recovery_code lib t
  normalize-append [] t h = refl
  normalize-append (c ∷ s) t h =
      normalize-cons c (s ++ t) h.0 ∙ ap (λ r. c ∷ r) (normalize-append s t h.1)

  -- The sixteen characters of the code whose first draw is `k`.
  abbrev pub code_letters : (ℕ → ℕ) → ℕ → Text
  code_letters choice k =
      group choice k ++ group choice (k + 4) ++ group choice (k + 8) ++ group choice (k + 12)

  module _ (choice : ℕ → ℕ) (drawn : (j : ℕ) → IsAlphabet (choice j)) where
    group-All : (k : ℕ) → All IsAlphabet (group choice k)
    group-All k = (drawn k, (drawn (k + 1), (drawn (k + 2), (drawn (k + 3), tt))))

    normalize_dashed :
        (k : ℕ) (t : Text)
        → normalize_recovery_code lib (b'-' ∷ (group choice k ++ t))
          ≡ group choice k ++ normalize_recovery_code lib t
    normalize_dashed k t = normalize_dash _ ∙ normalize-append (group choice k) t (group-All k)

    normalize-nil : normalize_recovery_code lib [] ≡ []
    unfolding normalize_recovery_code
    normalize-nil = refl

    normalize-raw_code :
        (k : ℕ) → normalize_recovery_code lib (raw_code choice k) ≡ code_letters choice k
    normalize-raw_code k = rw (normalize-append (group choice k) _ (group-All k)) (
        rw (normalize_dashed (k + 4) _)
          (rw (normalize_dashed (k + 8) _) (rw (normalize_dashed (k + 12) []) (rw normalize-nil))))

    normalize-code_letters :
        (k : ℕ) → normalize_recovery_code lib (code_letters choice k) ≡ code_letters choice k
    normalize-code_letters k = rw (normalize-append (group choice k) _ (group-All k)) (
        rw (normalize-append (group choice (k + 4)) _ (group-All (k + 4))) (
          rw (normalize-append (group choice (k + 8)) _ (group-All (k + 8))) (
            rw (normalize-append (group choice (k + 12)) [] (group-All (k + 12)))
              (rw normalize-nil))))

    hash_at : ℕ → Text
    hash_at k = recovery_code_hash lib (raw_code choice k)

    generated_column :
        (generate_recovery_codes lib choice).1 ≡ lib.dumps (spread hash_at recovery_code_count 0)
    unfolding generate_recovery_codes hash_at
    generated_column =
        ap lib.dumps (map-raw_codes (recovery_code_hash lib) choice recovery_code_count 0)

    hash-normalize :
        (i : ℕ) (supplied : Text)
        → normalize_recovery_code lib supplied
          ≡ normalize_recovery_code lib (raw_code choice (i * 16))
        → (length (normalize_recovery_code lib supplied) ≡ recovery_code_length)
          × (recovery_code_hash lib (normalize_recovery_code lib supplied) ≡ hash_at (i * 16))
    unfolding hash_at
    hash-normalize i supplied same =
        let letters = same ∙ normalize-raw_code (i * 16) in
        (
          ap length letters,
          ap lib.sha256 (
              ap (normalize_recovery_code lib) letters
              ∙ normalize-code_letters (i * 16)
              ∙ sym (normalize-raw_code (i * 16))),
        )

    spread-ascii : (n k : ℕ) → all is_ascii (spread hash_at n k) ≡ true
    unfolding spread hash_at
    spread-ascii zero k = refl
    spread-ascii (suc n) k = ground (
      arith,
      lib.sha256_ascii (normalize_recovery_code lib (raw_code choice k)),
      spread-ascii n (k + recovery_code_length),
    )

    hash_at-ascii : (k : ℕ) → is_ascii (hash_at k) ≡ true
    unfolding hash_at
    hash_at-ascii k = lib.sha256_ascii (normalize_recovery_code lib (raw_code choice k))

    generated_code_by_index :
        (i : ℕ) (supplied : Text)
        → i < 10
        → normalize_recovery_code lib supplied
          ≡ normalize_recovery_code lib (raw_code choice (i * 16))
        → (left : Option Text) × (consume_recovery_code lib
              (some (generate_recovery_codes lib choice).1)
              supplied
            ≡ Result.ok (true, left))
    generated_code_by_index i supplied small same =
        let (len, again) = hash-normalize i supplied same in
        let (rest, found) =
          remove_first_of_any (hash_at (0 + i * 16)) (spread hash_at 10 0)
            (hash_at-ascii (0 + i * 16)) (spread-ascii 10 0) (any-spread hash_at 10 0 i small) in
        (
          some (lib.dumps rest),
          rw generated_column
              (consume_found _ supplied rest len (rw (again, ← zero-add (i * 16)) found)),
        )

    raw_codes-entry :
        (n k i : ℕ) → i < n → entry i (raw_codes choice n k) ≡ raw_code choice (k + i * 16)
    unfolding raw_codes
    raw_codes-entry zero k i h = absurd (omega arith)
    raw_codes-entry (suc n) k zero h =
        let e : k ≡ k + 0 * 16 = omega arith in ap (raw_code choice) e
    raw_codes-entry (suc n) k (suc i) h =
        let e : k + recovery_code_length + i * 16 ≡ k + suc i * 16 = omega arith in
        raw_codes-entry n (k + recovery_code_length) i (omega arith) ∙ ap (raw_code choice) e

    -- Ten codes are generated; each of them, drawn from upper-case letters and digits, is accepted
    -- by the column that is generated with them, as is any text that normalizes as the code does.
    pub generated_code_accepted :
        (i : ℕ) (supplied : Text)
        → i < 10
        → normalize_recovery_code lib supplied
          ≡ normalize_recovery_code lib (entry i (generate_recovery_codes lib choice).0)
        → (length (generate_recovery_codes lib choice).0 ≡ 10)
          × ((left : Option Text) × (consume_recovery_code lib
                  (some (generate_recovery_codes lib choice).1)
                  supplied
                ≡ Result.ok (true, left)))
    unfolding generate_recovery_codes raw_codes
    generated_code_accepted i supplied small same =
        let at = raw_codes-entry 10 0 i small ∙ ap (raw_code choice) (zero-add (i * 16)) in
        (
          refl,
          generated_code_by_index i supplied small (same ∙ ap (normalize_recovery_code lib) at),
        )
