-- ===== src/Runtime/JvmFlags.antt =====
-- talos_panel/jvm_flags.py. `shlex` stands for `shlex.split`: none is its `ValueError`. A
-- `JvmFlagsError` is told by its class.
use mathlib.Core.Path.{subst, sym}
use talos_panel.Base.{
  ltb, if◌then◌else◌, length, any, All, ℕ, ◌+◌, ◌≤◌, ◌≡◌, inl, inr, Bool, true, false, not, ◌||◌,
  Option, none, some, List, [], ◌∷◌, ◌++◌, map, arith, Bool-cases, Option-cases, sym,
}
use talos_panel.Base.Decimal.{number_text}
use talos_panel.Base.Text.{Text, codes, has_prefix}
use talos_panel.Http.{Failure, Result, Result-cases}
use talos_panel.Platform.{Platform, lower_text}

-- The number of bytes that UTF-8 takes for the text.
unfoldable pub utf8_length : Text → ℕ
utf8_length [] = 0
utf8_length (c ∷ s) =
    (if ltb c 128 then 1 else if ltb c 2048 then 2 else if ltb c 65536 then 3 else 4)
    + utf8_length s

abbrev pub aikar_flags : List Text
aikar_flags =
    map (λ s. codes s)
      ("-XX:+UseG1GC" ∷ "-XX:+ParallelRefProcEnabled" ∷ "-XX:MaxGCPauseMillis=200"
        ∷ "-XX:+UnlockExperimentalVMOptions" ∷ "-XX:+DisableExplicitGC" ∷ "-XX:+AlwaysPreTouch"
        ∷ "-XX:G1NewSizePercent=30" ∷ "-XX:G1MaxNewSizePercent=40" ∷ "-XX:G1HeapRegionSize=8M"
        ∷ "-XX:G1ReservePercent=20" ∷ "-XX:G1HeapWastePercent=5" ∷ "-XX:G1MixedGCCountTarget=4"
        ∷ "-XX:InitiatingHeapOccupancyPercent=15" ∷ "-XX:G1MixedGCLiveThresholdPercent=90"
        ∷ "-XX:G1RSetUpdatingPauseTimePercent=5" ∷ "-XX:SurvivorRatio=32"
        ∷ "-XX:+PerfDisableSharedMem" ∷ "-XX:MaxTenuringThreshold=1"
        ∷ "-Dusing.aikars.flags=https://mcflags.emc.gs" ∷ "-Daikars.new.flags=true" ∷ [])

abbrev pub forbidden_jvm_prefixes : List Text
forbidden_jvm_prefixes =
    map (λ s. codes s)
      ("-xms" ∷ "-xmx" ∷ "-jar" ∷ "-cp" ∷ "-classpath" ∷ "--class-path" ∷ "-javaagent" ∷ "-agentlib"
        ∷ "-agentpath" ∷ [])

or_false : (a b : Bool) → (a || b) ≡ false → (a ≡ false) × (b ≡ false)
or_false a b h = ground arith

not-false : (a : Bool) → not a ≡ false → a ≡ true
not-false a h = ground arith

ok_injective : (a b : List Text) → Result.ok a ≡ Result.ok b → a ≡ b
ok_injective a b e = cc e

module _ (p : Platform) (shlex : Text → Option (List Text)) where
  is_refused : Text → Bool
  is_refused argument =
      not (has_prefix argument (codes "-"))
      || has_prefix argument (codes "@")
      || any (λ c. ltb c 32) argument
      || any (λ prefix. has_prefix (lower_text p argument) prefix) forbidden_jvm_prefixes

  unfoldable pub parse_custom_jvm_flags : Text → Result (List Text)
  unfolding is_refused utf8_length
  parse_custom_jvm_flags value =
      if ltb 2048 (utf8_length value)
      then Result.err (Failure.crash "JvmFlagsError")
      else (elim (shlex value) [
        | none ↦ Result.err (Failure.crash "JvmFlagsError")
        | some arguments ↦
            if ltb 64 (length arguments) || any is_refused arguments
            then Result.err (Failure.crash "JvmFlagsError")
            else Result.ok arguments
      ])

  unfoldable pub startup_jvm_arguments : ℕ → Bool → Text → Result (List Text)
  startup_jvm_arguments memory_mb use_aikar_flags custom_flags =
      elim (parse_custom_jvm_flags custom_flags) [
        | Result.err e ↦ Result.err e
        | Result.ok custom ↦ Result.ok (
            (codes "-Xms" ++ number_text memory_mb ++ codes "M")
            ∷ (codes "-Xmx" ++ number_text memory_mb ++ codes "M")
            ∷ ((if use_aikar_flags then aikar_flags else []) ++ custom))
      ]

  -- A custom argument that may reach the command line: it starts with a dash and, in either case of
  -- letters, with none of the nine forbidden prefixes, and holds no control character.
  abbrev pub IsAllowed : Text → Type 0
  IsAllowed argument =
      (has_prefix argument (codes "-") ≡ true)
      × (any (λ c. ltb c 32) argument ≡ false)
      × (any (λ prefix. has_prefix (lower_text p argument) prefix) forbidden_jvm_prefixes ≡ false)

  allowed : (arguments : List Text) → any is_refused arguments ≡ false → All IsAllowed arguments
  unfolding is_refused
  allowed [] h = tt
  allowed (a ∷ rest) h =
      let dash = has_prefix a (codes "-") in
      let at = has_prefix a (codes "@") in
      let control = any (λ c. ltb c 32) a in
      let prefixed = any (λ prefix. has_prefix (lower_text p a) prefix) forbidden_jvm_prefixes in
      let (here, later) = or_false (is_refused a) (any is_refused rest) h in
      let (fine, free) = or_false (not dash || at || control) prefixed here in
      let (start', plain) = or_false (not dash || at) control fine in
      let (dashed, not_at) = or_false (not dash) at start' in
      ((not-false dash dashed, plain, free), allowed rest later)

  parse-IsAllowed :
      (value : Text) (flags : List Text)
      → parse_custom_jvm_flags value ≡ Result.ok flags
      → (length flags ≤ 64) × All IsAllowed flags
  unfolding parse_custom_jvm_flags
  parse-IsAllowed value flags h = elim (Bool-cases (ltb 2048 (utf8_length value))) [
    | inl long ↦ absurd (cc (rw (long, parse_custom_jvm_flags) at h))
    | inr short ↦ elim (Option-cases (shlex value)) [
      | inl none' ↦ absurd (cc (rw (short, none', parse_custom_jvm_flags) at h))
      | inr (arguments, e) ↦
          elim (Bool-cases (ltb 64 (length arguments) || any is_refused arguments)) [
            | inl bad ↦ absurd (cc (rw (short, e, bad, parse_custom_jvm_flags) at h))
            | inr good ↦
                let same = ok_injective _ _ (rw (short, e, good, parse_custom_jvm_flags) at h) in
                let (few, plain) =
                  or_false (ltb 64 (length arguments)) (any is_refused arguments) good in
                subst (λ l. (length l ≤ 64) × All IsAllowed l) same
                  (ground arith, allowed arguments plain)
          ]
    ]
  ]

  -- The arguments of a start that is not refused are the two for the memory, then Aikar's flags if
  -- they are asked for, then at most 64 custom ones, each of which starts with a dash and, in either
  -- case of letters, with none of the nine forbidden prefixes, and holds no control character.
  pub startup_jvm_arguments-IsAllowed :
      (memory_mb : ℕ) (use_aikar : Bool) (custom_flags : Text) (arguments : List Text)
      → startup_jvm_arguments memory_mb use_aikar custom_flags ≡ Result.ok arguments
      → (custom : List Text) × (arguments
          ≡ (codes "-Xms" ++ number_text memory_mb ++ codes "M")
            ∷ (codes "-Xmx" ++ number_text memory_mb ++ codes "M")
            ∷ ((if use_aikar then aikar_flags else []) ++ custom))
        × (length custom ≤ 64)
        × All IsAllowed custom
  unfolding startup_jvm_arguments
  startup_jvm_arguments-IsAllowed memory_mb use_aikar custom_flags arguments h =
      elim (Result-cases (parse_custom_jvm_flags custom_flags)) [
        | inl (x, e) ↦ absurd (cc (rw (e, startup_jvm_arguments) at h))
        | inr (flags, e) ↦
            let same = ok_injective _ _ (rw (e, startup_jvm_arguments) at h) in
            let (few, plain) = parse-IsAllowed custom_flags flags e in (flags, sym same, few, plain)
      ]
