-- ===== src/Runtime/Laws.antt =====
-- What `DockerRuntime` does to the containers, for every Docker that keeps its documented laws.
use mathlib.Core.Path.{subst}
use talos_panel.Base.{
  String, ◌≡◌, refl, ◌⊎◌, true, some, Bool-cases, Option-cases, ◌∙◌, inl, inr, arith, ap, ◌≢◌,
  Option, none, sym,
}
use talos_panel.Base.Decimal.{number_text}
use talos_panel.Base.Text.{Text, text_eq, text_eq_iff}
use talos_panel.Http.{Result, Result-cases}
use talos_panel.Models.Servers.{MinecraftServer}
use talos_panel.Platform.{Platform}
use talos_panel.Runtime.Containers.{
  start, status, remove, RuntimeEnv, type_value, jvm_profile_hash, container_name, server_labels,
  profile_matches, is_running, is_managed, run_spec, run_container, managed_container,
  start_existing,
}
use talos_panel.Runtime.Docker.{Container, RunSpec, Docker, IsLawful}
use talos_panel.ServerProperties.Laws.{others}

pub text_refl : (t : Text) → text_eq t t ≡ true
text_refl t = (text_eq_iff t t).1 refl

-- A container with the labels of the server is managed, and has the server's profile.
labelled_managed :
    (p : Platform) (server : MinecraftServer) (c : Container)
    → c.labels ≡ server_labels p server
    → (is_managed p server.id c ≡ true) × (profile_matches p server c ≡ true)
unfolding is_managed profile_matches
labelled_managed p server c e = rw e (
  rw (text_refl (p.uuid_text server.id)) refl,
  rw
      (
        text_refl (number_text server.memory_mb),
        text_refl (number_text server.host_port),
        text_refl (jvm_profile_hash p server),
        text_refl (type_value server.server_type),
        text_refl server.game_version,
      )
      refl,
)

module _ (D : Docker) (L : IsLawful D) (env : RuntimeEnv) (server : MinecraftServer) where
  abbrev own_name : Text
  own_name = container_name env.platform server.id

  -- After a start the server's container runs and is managed, and it has the server's profile
  -- unless it was running before.
  abbrev Started : D.State → D.State → Type 0
  Started s s' =
      (c : Container) × (D.get s' own_name ≡ some c)
      × (is_running c ≡ true)
      × (is_managed env.platform server.id c ≡ true)
      × ((profile_matches env.platform server c ≡ true) ⊎ (D.get s own_name ≡ some c))

  run_spec-name :
      (spec : RunSpec)
      → run_spec env server ≡ Result.ok spec
      → (spec.name ≡ own_name) × (spec.labels ≡ server_labels env.platform server)
  unfolding run_spec
  run_spec-name spec h = (ground arith, ground arith)

  made : (id : Text) → Container
  made id = record {
    id = id;
    status = "running";
    labels = server_labels env.platform server;
    restart_policy = "no";
  }

  run_container-Started :
      (s s' before : D.State) (r : Text × String)
      → run_container D env server s ≡ (Result.ok r, s')
      → Started before s'
  unfolding run_container made
  run_container-Started s s' before r h = elim (Result-cases (run_spec env server)) [
    | inl (e, q) ↦ absurd (ground arith)
    | inr (spec, q) ↦ elim (Option-cases (D.run s spec).0) [
      | inl e ↦ absurd (ground arith)
      | inr (id, e) ↦
          let t = (D.run s spec).1 in
          let (name, labels) = run_spec-name spec q in
          let there = L.get-run s spec id t own_name (ground arith) in
          let fresh = labelled_managed env.platform server (made id) refl in
          let same : t ≡ s' = ground arith in
          (
            made id,
            subst (λ u. D.get u own_name ≡ some (made id)) same
                (there ∙ ground (arith, name, labels, text_refl own_name)),
            refl,
            fresh.0,
            inl fresh.1,
          )
    ]
  ]

  run_container-running :
      (s s' : D.State) (r : Text × String)
      → run_container D env server s ≡ (Result.ok r, s')
      → r.1 ≡ "running"
  unfolding run_container
  run_container-running s s' r h = ground arith

  kept-Started :
      (s s' : D.State) (c : Container)
      → D.get s own_name ≡ some c
      → is_managed env.platform server.id c ≡ true
      → profile_matches env.platform server c ≡ true
      → D.start s own_name ≡ some s'
      → Started s s'
  unfolding profile_matches is_managed
  kept-Started s s' c e m p started = (
    record c { status = "running" },
    L.get-start s own_name s' own_name started ∙ ground (arith, text_refl own_name),
    refl,
    m,
    inl p,
  )

  existing-Started :
      (s s' : D.State) (c : Container) (r : Text × String)
      → D.get s own_name ≡ some c
      → is_managed env.platform server.id c ≡ true
      → start_existing D env server (some c) s ≡ (Result.ok r, s')
      → (r.1 ≡ "running") × Started s s'
  unfolding start_existing
  existing-Started s s' c r e m h = elim (Bool-cases (is_running c)) [
    | inl runs ↦
        let same : s ≡ s' = ground arith in
        (ground arith, (c, subst (λ u. D.get u own_name ≡ some c) same e, runs, m, inr e))
    | inr halted ↦ elim (Bool-cases (profile_matches env.platform server c)) [
      | inl p ↦ elim (Option-cases (D.start s own_name)) [
        | inl f ↦ absurd (ground arith)
        | inr (t, f) ↦
            let same : t ≡ s' = ground arith in
            (ground arith, kept-Started s s' c e m p (f ∙ ap some same))
      ]
      | inr p ↦ elim (Option-cases (D.remove s own_name)) [
        | inl f ↦ absurd (ground arith)
        | inr (t, f) ↦
            let made_anew : run_container D env server t ≡ (Result.ok r, s') = ground arith in
            (run_container-running t s' r made_anew, run_container-Started t s' s r made_anew)
      ]
    ]
  ]

  existing-none : (s : D.State) → start_existing D env server none s ≡ run_container D env server s
  unfolding start_existing
  existing-none s = refl

  -- A successful start reports "running", and leaves the server's own container running and managed
  -- by the panel; the container has the memory, port, flags, type and version of the server in its
  -- labels, unless it is the container that was running before the start.
  pub start_sound :
      (s s' : D.State) (r : Text × String)
      → start D env server s ≡ (Result.ok r, s')
      → (r.1 ≡ "running")
        × ((c : Container) × (D.get s' (container_name env.platform server.id) ≡ some c)
            × (is_running c ≡ true)
            × (is_managed env.platform server.id c ≡ true)
            × ((profile_matches env.platform server c ≡ true)
                ⊎ (D.get s (container_name env.platform server.id) ≡ some c)))
  unfolding start managed_container
  start_sound s s' r h = elim (Option-cases (D.get s own_name)) [
    | inl missing ↦
        let anew : start_existing D env server none s ≡ (Result.ok r, s') = ground arith in
        let anew' = sym (existing-none s) ∙ anew in
        (run_container-running s s' r anew', run_container-Started s s' s r anew')
    | inr (c, e) ↦ elim (Bool-cases (is_managed env.platform server.id c)) [
      | inl m ↦
          let kept : start_existing D env server (some c) s ≡ (Result.ok r, s') = ground arith in
          existing-Started s s' c r e m kept
      | inr u ↦ absurd (ground arith)
    ]
  ]

  -- No container of the server is left, and one of another name is as it was.
  abbrev pub Removed : D.State → D.State → Type 0
  Removed s s' = (D.get s' own_name ≡ none) × ((n : Text) → own_name ≢ n → D.get s' n ≡ D.get s n)

  remove_call : (s s' : D.State) → D.remove s own_name ≡ some s' → Removed s s'
  remove_call s s' e = (
    L.get-remove s own_name s' own_name e ∙ ground (arith, text_refl own_name),
    λ n ne. L.get-remove s own_name s' n e ∙ ground (arith, text_eq_iff own_name n),
  )

  stop_call :
      (s s' : D.State) (n : Text)
      → D.stop s own_name ≡ some s'
      → own_name ≢ n
      → D.get s' n ≡ D.get s n
  stop_call s s' n e ne = L.get-stop s own_name s' n e ∙ ground (arith, text_eq_iff own_name n)

  pub remove-Removed :
      (s s' : D.State) (r : Option Text) → remove D env server s ≡ (Result.ok r, s') → Removed s s'
  unfolding remove managed_container
  remove-Removed s s' r h = elim (Option-cases (D.get s own_name)) [
    | inl missing ↦
        let same : s ≡ s' = ground arith in subst (Removed s) same (missing, λ n ne. refl)
    | inr (c, e) ↦ elim (Bool-cases (is_managed env.platform server.id c)) [
      | inr u ↦ absurd (ground arith)
      | inl m ↦ elim (Bool-cases (is_running c)) [
        | inr halted ↦
            let call : D.remove s own_name ≡ some s' = ground arith in remove_call s s' call
        | inl runs ↦ elim (Option-cases (D.stop s own_name)) [
          | inl f ↦ absurd (ground arith)
          | inr (t, f) ↦
              let call : D.remove t own_name ≡ some s' = ground arith in
              let (gone, others) = remove_call t s' call in
              (gone, λ n ne. others n ne ∙ stop_call s t n f ne)
        ]
      ]
    ]
  ]

  -- After a successful removal the server has no container, its status is "not_created", and a
  -- container of any other name is as it was.
  pub remove_sound :
      (s s' : D.State) (r : Option Text) (n : Text)
      → remove D env server s ≡ (Result.ok r, s')
      → container_name env.platform server.id ≢ n
      → (D.get s' (container_name env.platform server.id) ≡ none)
        × (status D env server s' ≡ (Result.ok (none, "not_created"), s'))
        × (D.get s' n ≡ D.get s n)
  unfolding status managed_container
  remove_sound s s' r n h differs =
      let (gone, others) = remove-Removed s s' r h in (gone, ground arith, others n differs)
