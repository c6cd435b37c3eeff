-- ===== src/ServerProperties/Laws.antt =====
-- What a change of the settings does.
use mathlib.Core.Path.{subst}
use talos_panel.Base.{
  ap, if◌then◌else◌, Bool-cases, is_some, All, select, String, ◌≡◌, refl, ◌↔◌, inl, inr, Bool, true,
  false, not, some, List, [], ◌∷◌, ◌++◌, arith, Option-cases,
}
use talos_panel.Base.Text.{Text, codes, text_eq, text_eq_iff}
use talos_panel.ServerProperties.{
  ServerProperties, command_if, same_bool, live_setting_commands, value_of, is_member, entry,
  written_key, added, serialized, before_equals, line_key, merge_lines, changed_settings,
}

command_if-nil :
    (b : Bool) (field : String) (command : Text) → (command_if b field command ≡ []) ↔ (b ≡ false)
command_if-nil true field command = (λ h. cc h, λ h. cc h)
command_if-nil false field command = (λ h. refl, λ h. refl)

append-nil_iff : (xs ys : List (String × Text)) → (xs ++ ys ≡ []) ↔ ((xs ≡ []) × (ys ≡ []))
append-nil_iff [] ys = (λ h. (refl, h), λ h. h.1)
append-nil_iff (x ∷ xs) ys = (λ h. cc h, λ h. cc (h.0))

differs-false : (s t : Text) → (not (text_eq s t) ≡ false) ↔ (s ≡ t)
differs-false s t = ground (arith, text_eq_iff s t)

differs_bool-false : (a b : Bool) → (not (same_bool a b) ≡ false) ↔ (a ≡ b)
differs_bool-false true true = (λ h. refl, λ h. refl)
differs_bool-false true false = (λ h. cc h, λ h. cc h)
differs_bool-false false true = (λ h. cc h, λ h. cc h)
differs_bool-false false false = (λ h. refl, λ h. refl)

-- A change needs no command exactly when it keeps the difficulty, the game mode and the whitelist.
pub live_setting_commands-nil_iff :
    (before after : ServerProperties)
    → (live_setting_commands before after ≡ []) ↔ (
        (before.difficulty ≡ after.difficulty)
        × (before.gamemode ≡ after.gamemode)
        × (before.whitelist ≡ after.whitelist))
unfolding live_setting_commands changed_settings
live_setting_commands-nil_iff before after =
    let (d, d') = differs-false before.difficulty after.difficulty in
    let (g, g') = differs-false before.gamemode after.gamemode in
    let (w, w') = differs_bool-false before.whitelist after.whitelist in
    let (dn, dn') =
      command_if-nil (not (text_eq before.difficulty after.difficulty)) "difficulty"
        (codes "difficulty " ++ after.difficulty) in
    let (gn, gn') =
      command_if-nil (not (text_eq before.gamemode after.gamemode)) "gamemode"
        (codes "defaultgamemode " ++ after.gamemode) in
    let (wn, wn') =
      command_if-nil (not (same_bool before.whitelist after.whitelist)) "whitelist"
        (codes "whitelist " ++ (if after.whitelist then codes "on" else codes "off")) in
    let (both, both') = append-nil_iff _ _ in
    let (all', all'') = append-nil_iff _ _ in
    (
      λ h. let (dg, c) = all' h in let (a, b) = both dg in (d (dn a), g (gn b), w (wn c)),
      λ (a, b, c). all'' (both' (dn' (d' a), gn' (g' b)), wn' (w' c)),
    )

some_injective : (a b : Text) → some a ≡ some b → a ≡ b
some_injective a b e = cc e

abbrev pub is_own : List (Text × Text) → Text → Bool
is_own entries line = is_some (written_key entries line)

abbrev pub others : List (Text × Text) → List Text → List Text
others entries lines = select (λ l. not (is_own entries l)) lines

module _ (entries : List (Text × Text)) where
  -- The lines that are written for the keys are read back as lines of the keys.
  abbrev Reread : List (Text × Text) → Type 0
  Reread es = All (λ e. is_own entries (entry e.0 e.1) ≡ true) es

  others-added :
      (es : List (Text × Text)) (written : List Text)
      → Reread es
      → others entries (added es written) ≡ []
  unfolding added
  others-added [] written h = refl
  others-added ((key, value) ∷ es) written (own, rest) =
      let later = others-added es written rest in
      elim (Bool-cases (is_member key written)) [
        | inl e ↦ rw (e, added) later
        | inr e ↦ rw (e, added, own) later
      ]

  value_of-own :
      (es : List (Text × Text)) (key value : Text)
      → Reread es
      → value_of key es ≡ some value
      → is_own entries (entry key value) ≡ true
  value_of-own [] key value h e = absurd (ground arith)
  value_of-own ((k, v) ∷ es) key value (own, rest) e = elim (Bool-cases (text_eq k key)) [
    | inl same ↦
        let keys : k ≡ key = (text_eq_iff k key).0 same in
        let values : v ≡ value = some_injective v value (rw same at e) in
        subst (λ t. is_own entries (entry t value) ≡ true) keys
          (subst (λ t. is_own entries (entry k t) ≡ true) values own)
    | inr apart ↦ value_of-own es key value rest (rw apart at e)
  ]

  merge_lines-others :
      (lines written : List Text)
      → Reread entries
      → others entries (merge_lines entries lines written) ≡ others entries lines
  unfolding merge_lines
  merge_lines-others [] written h = others-added entries written h
  merge_lines-others (line ∷ lines) written h = elim (Option-cases (line_key line)) [
    | inl plain ↦
        let other : is_own entries line ≡ false = rw (plain, written_key) refl in
        rw (plain, merge_lines, other) (ap (λ t. line ∷ t) (merge_lines-others lines written h))
    | inr (key, e) ↦ elim (Option-cases (value_of key entries)) [
      | inl unknown ↦
          let other : is_own entries line ≡ false = rw (e, unknown, written_key) refl in
          rw (e, unknown, merge_lines, other)
            (ap (λ t. line ∷ t) (merge_lines-others lines written h))
      | inr (value, f) ↦
          let own : is_own entries line ≡ true = rw (e, f, written_key) refl in
          let entry_own = value_of-own entries key value h f in
          elim (Bool-cases (is_member key written)) [
            | inl again ↦ rw (e, f, again, merge_lines, own) (merge_lines-others lines written h)
            | inr first ↦
                rw (e, f, first, merge_lines, own, entry_own)
                  (merge_lines-others lines (key ∷ written) h)
          ]
    ]
  ]

-- Every line that is written for a setting is read back as a line of that setting.
serialized-Reread : (s : ServerProperties) → Reread (serialized s) (serialized s)
unfolding serialized line_key before_equals
serialized-Reread s = (refl, (refl, (refl, (refl, (refl, (refl, (refl, (refl, (refl, tt)))))))))

-- Saving the settings keeps every other line of server.properties, in its order.
pub other_lines_kept :
    (settings : ServerProperties) (existing : List Text)
    → others (serialized settings) (merge_lines (serialized settings) existing [])
      ≡ others (serialized settings) existing
other_lines_kept settings existing =
    merge_lines-others (serialized settings) existing [] (serialized-Reread settings)
