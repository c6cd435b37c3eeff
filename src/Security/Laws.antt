-- ===== src/Security/Laws.antt =====
-- When `security_findings` has nothing to warn of.
use Prim.Native.Nat.{bit_and}
use mathlib.Core.Path.{sym, ap}
use talos_panel.Auth.Session.{Settings}
use talos_panel.Base.{
  Bool-cases, is_some, all, count, count-append, ℕ, ◌≡◌, refl, ◌↔◌, inl, inr, Bool, true, false,
  not, ◌&&◌, Option, none, some, List, [], ◌∷◌, arith, ◌+◌, ◌++◌, Option-cases, All, ◌≤◌, sym, ap,
  ◌∙◌, ◌≢◌,
}
use talos_panel.Base.Text.{Text, codes, text_eq, text_eq_iff}
use talos_panel.Runtime.Console.{contains}
use talos_panel.Security.{
  Severity, Finding, Inspected, Listing, on_host_network, is_unlimited, container_findings,
  listed_findings, is_broad, secret_findings, failure_findings, settings_findings,
  security_findings, docker_note,
}

abbrev pub is_serious : Finding → Bool
is_serious f = elim f.severity [
  | Severity.info ↦ false
  | Severity.warning ↦ true
  | Severity.critical ↦ true
]

abbrev is_confined : Inspected → Bool
is_confined c = not c.privileged && not (on_host_network c) && not (is_unlimited c)

abbrev is_private : Option ℕ → Bool
is_private none = false
is_private (some mode) = not (is_broad mode)

both : (a b : Bool) → (a && b) ≡ true → (a ≡ true) × (b ≡ true)
both a b h = ground arith

of_both : (a b : Bool) → a ≡ true → b ≡ true → (a && b) ≡ true
of_both a b p q = ground arith

not-true : (a : Bool) → not a ≡ true → a ≡ false
not-true a h = ground arith

some_injective : (a b : Text) → some a ≡ some b → a ≡ b
some_injective a b e = cc e

is_none_iff : (o : Option Text) → (is_some o ≡ false) ↔ (o ≡ none)
is_none_iff none = (λ h. refl, λ h. refl)
is_none_iff (some t) = (λ h. absurd (cc h), λ h. absurd (cc h))

conjunction : (a b c : Bool) → a ≡ false → b ≡ false → c ≡ false → (not a && not b && not c) ≡ true
conjunction a b c p q r = ground arith

conjuncts :
    (a b c : Bool) → (not a && not b && not c) ≡ true → (a ≡ false) × (b ≡ false) × (c ≡ false)
conjuncts a b c h = ground arith

container_findings-serious :
    (c : Inspected) → (count is_serious (container_findings c) ≡ 0) ↔ (is_confined c ≡ true)
unfolding container_findings
container_findings-serious c = ground arith

listed_findings-serious :
    (cs : List Inspected)
    → (count is_serious (listed_findings cs) ≡ 0) ↔ (all is_confined cs ≡ true)
unfolding listed_findings
listed_findings-serious [] = (λ h. refl, λ h. refl)
listed_findings-serious (c ∷ cs) = ground (
  arith,
  container_findings-serious c,
  listed_findings-serious cs,
  count-append is_serious (container_findings c) (listed_findings cs),
)

settings_findings-serious :
    (settings : Settings) (url : Text)
    → (count is_serious (settings_findings settings url) ≡ 0)
      ↔ ((settings.secure_cookies && not (contains (codes "change-me") url)) ≡ true)
unfolding settings_findings
settings_findings-serious settings url = elim (Bool-cases (contains (codes "change-me") url)) [
  | inl e ↦ rw e (ground arith)
  | inr e ↦ rw e (ground arith)
]

secret_findings-serious :
    (mode : Option ℕ) → (count is_serious (secret_findings mode) ≡ 0) ↔ (is_private mode ≡ true)
unfolding secret_findings
secret_findings-serious none = ground arith
secret_findings-serious (some mode) = ground arith

failure_findings-serious :
    (failure : Option Text)
    → (count is_serious (failure_findings failure) ≡ 0) ↔ (is_some failure ≡ false)
unfolding failure_findings
failure_findings-serious none = ground arith
failure_findings-serious (some text) = ground arith

serious_sum :
    (settings : Settings) (url : Text) (mode : Option ℕ) (listing : Listing)
    → count is_serious (security_findings settings url mode listing)
      ≡ count is_serious (settings_findings settings url)
        + (count is_serious (secret_findings mode)
            + (count is_serious (listed_findings listing.containers)
                + count is_serious (failure_findings listing.failure)))
unfolding security_findings
serious_sum settings url mode listing =
    let settings' = settings_findings settings url in
    let secret = secret_findings mode in
    let listed = listed_findings listing.containers in
    let failed = failure_findings listing.failure in
    let first = count-append is_serious settings' secret in
    let second = count-append is_serious (settings' ++ secret) (docker_note ∷ []) in
    let third = count-append is_serious (settings' ++ secret ++ docker_note ∷ []) listed in
    let fourth : count is_serious (security_findings settings url mode listing)
        ≡ count is_serious (settings' ++ secret ++ docker_note ∷ [] ++ listed)
          + count is_serious failed =
      count-append is_serious (settings' ++ secret ++ docker_note ∷ [] ++ listed) failed in
    omega arith

-- A container that is not privileged, is not on the host's network and has a memory limit.
abbrev pub IsConfined : Inspected → Type 0
IsConfined c =
    (c.privileged ≡ false)
    × (c.network_mode ≢ some (codes "host"))
    × ((n : ℕ) × (c.memory ≡ some n) × (1 ≤ n))

-- A secret file that could be inspected, and grants no permission bit to group or others.
abbrev pub IsPrivate : Option ℕ → Type 0
IsPrivate mode = (m : ℕ) × (mode ≡ some m) × (bit_and m 63 ≡ 0)

not_on_host : (c : Inspected) → (on_host_network c ≡ false) ↔ (c.network_mode ≢ some (codes "host"))
not_on_host c = elim (Option-cases c.network_mode) [
  | inl e ↦ rw e (λ h f. absurd (cc f), λ h. refl)
  | inr (m, e) ↦ rw e (
    λ h f.
        absurd (cc (sym h ∙ (text_eq_iff m (codes "host")).1 (some_injective m (codes "host") f))),
    λ h. elim (Bool-cases (text_eq m (codes "host"))) [
      | inl same ↦ absurd (h (ap (λ t. some t) ((text_eq_iff m (codes "host")).0 same)))
      | inr differ ↦ differ
    ],
  )
]

limited : (c : Inspected) → (is_unlimited c ≡ false) ↔ ((n : ℕ) × (c.memory ≡ some n) × (1 ≤ n))
limited c = elim (Option-cases c.memory) [
  | inl e ↦ rw e (λ h. absurd (cc h), λ (n, f, k). absurd (cc f))
  | inr (m, e) ↦ rw e (λ h. (m, refl, ground arith), λ (n, f, k). ground arith)
]

is_confined_iff : (c : Inspected) → (is_confined c ≡ true) ↔ IsConfined c
is_confined_iff c =
    let (a, a') = not_on_host c in
    let (b, b') = limited c in
    (
      λ h.
          let (p, q, r) = conjuncts c.privileged (on_host_network c) (is_unlimited c) h in
          (p, a q, b r),
      λ (p, q, r). conjunction c.privileged (on_host_network c) (is_unlimited c) p (a' q) (b' r),
    )

all-IsConfined_iff : (cs : List Inspected) → (all is_confined cs ≡ true) ↔ All IsConfined cs
all-IsConfined_iff [] = (λ h. tt, λ h. refl)
all-IsConfined_iff (c ∷ cs) =
    let (a, a') = is_confined_iff c in
    let (b, b') = all-IsConfined_iff cs in
    (
      λ h. let (x, y) = both (is_confined c) (all is_confined cs) h in (a x, b y),
      λ (p, q). of_both (is_confined c) (all is_confined cs) (a' p) (b' q),
    )

is_private_iff : (mode : Option ℕ) → (is_private mode ≡ true) ↔ IsPrivate mode
is_private_iff none = (λ h. absurd (cc h), λ (m, e, k). absurd (cc e))
is_private_iff (some mode) = (λ h. (mode, refl, ground arith), λ (m, e, k). ground arith)

-- `security_findings` holds neither a warning nor a critical finding exactly when cookies are
-- secure, the database's address does not hold the default password, the secret file was inspected
-- and grants no permission bit to group or others, and the listing of containers did not fail and
-- each of them is unprivileged, off the host's network and limited in its memory.
pub no_warning_iff :
    (settings : Settings) (url : Text) (mode : Option ℕ) (listing : Listing)
    → (count is_serious (security_findings settings url mode listing) ≡ 0) ↔ (
        (settings.secure_cookies ≡ true)
        × (contains (codes "change-me") url ≡ false)
        × IsPrivate mode
        × All IsConfined listing.containers
        × (listing.failure ≡ none))
no_warning_iff settings url mode listing =
    let sum = serious_sum settings url mode listing in
    let (a, a') = settings_findings-serious settings url in
    let (b, b') = secret_findings-serious mode in
    let (c, c') = listed_findings-serious listing.containers in
    let (d, d') = failure_findings-serious listing.failure in
    let (i, i') = is_private_iff mode in
    let (j, j') = all-IsConfined_iff listing.containers in
    let (k, k') = is_none_iff listing.failure in
    (
      λ h.
          let (secure, plain) =
            both settings.secure_cookies (not (contains (codes "change-me") url))
              (a (omega arith)) in
          (secure, not-true _ plain, i (b (omega arith)), j (c (omega arith)), k (d (omega arith))),
      λ (secure, plain, q, r, s).
          let p' = a' (
            of_both settings.secure_cookies (not (contains (codes "change-me") url)) secure
              (ap not plain)) in
          let q' = b' (i' q) in let r' = c' (j' r) in let s' = d' (k' s) in omega arith,
    )
