-- ===== src/Runtime/LifeCycle/Refinement.antt =====
-- Start, removal, status and console commands, against the lives of LifeCycle.
use mathlib.Core.Path.{subst}
use talos_panel.Base.{
  sym, Bool-cases, Option-cases, String, ◌≡◌, refl, ◌∙◌, inl, inr, true, Option, some, arith, ◌==◌,
  ◌⊎◌, List, [], ◌∷◌, ◌++◌,
}
use talos_panel.Base.Text.{Text, codes}
use talos_panel.Http.{Result, Result-cases}
use talos_panel.Models.Servers.{MinecraftServer}
use talos_panel.Runtime.Commands.{
  exec_in, write_stdin, deliver, send_normalized, send_command, wait_or_stop,
}
use talos_panel.Runtime.Console.{CommandError, Normalized, normalize_console_command}
use talos_panel.Runtime.Containers.{
  start, status, remove, RuntimeEnv, container_name, is_managed, managed_container, is_running,
}
use talos_panel.Runtime.Docker.{Container, Docker, IsLawful, with_status, has_label}
use talos_panel.Runtime.Laws.{start_sound, remove-Removed, text_refl}
use talos_panel.Runtime.LifeCycle.{Call, life_after, life_of, life, Managed}
use talos_panel.ServerProperties.Laws.{others}

Normalized-cases :
    (n : Normalized)
    → ((t : Text) × (n ≡ Normalized.command t)) ⊎ ((e : CommandError) × (n ≡ Normalized.refused e))
Normalized-cases (Normalized.command t) = inl (t, refl)
Normalized-cases (Normalized.refused e) = inr (e, refl)

module _ (D : Docker) (L : IsLawful D) (env : RuntimeEnv) (server : MinecraftServer) where
  abbrev own : Text
  own = container_name env.platform server.id

  -- A call ends in a state that is managed, in the life that was promised.
  abbrev pub Kept : Call → D.State → D.State → Type 0
  Kept call s s' =
      Managed D env server s' × (life D env server s' ≡ life_after call (life D env server s))

  unique : (s : D.State) (c d : Container) → D.get s own ≡ some c → D.get s own ≡ some d → c ≡ d
  unique s c d e f = cc (sym e ∙ f)

  pub start-Kept :
      (s s' : D.State) (r : Text × String)
      → start D env server s ≡ (Result.ok r, s')
      → Kept Call.to_start s s'
  unfolding life_after life_of
  start-Kept s s' r h =
      let (reported, (c, there, runs, managed, profile)) = start_sound D L env server s s' r h in
      (
        λ d e.
            subst (λ x. is_managed env.platform server.id x ≡ true) (unique s' c d there e) managed,
        rw (there, life_of, runs) refl,
      )

  pub remove-Kept :
      (s s' : D.State) (r : Option Text)
      → remove D env server s ≡ (Result.ok r, s')
      → Kept Call.to_remove s s'
  unfolding life_after life_of
  remove-Kept s s' r h =
      let (gone, others) = remove-Removed D L env server s s' r h in
      (λ d e. absurd (cc (sym gone ∙ e)), rw (gone, life_of) refl)

  pub status-Kept :
      (s s' : D.State) (r : Option Text × String)
      → Managed D env server s
      → status D env server s ≡ (Result.ok r, s')
      → Kept Call.to_ask s s'
  unfolding life_after status managed_container
  status-Kept s s' r m h = elim (Option-cases (D.get s own)) [
    | inl missing ↦
        let same : s ≡ s' = ground arith in subst (λ x. Kept Call.to_ask s x) same (m, refl)
    | inr (c, e) ↦ elim (Bool-cases (is_managed env.platform server.id c)) [
      | inl k ↦ let same : s ≡ s' = ground arith in subst (λ x. Kept Call.to_ask s x) same (m, refl)
      | inr k ↦ absurd (ground arith)
    ]
  ]

  abbrev exited : D.State → Option Container
  exited s = with_status "exited" (D.get s own)

  -- A command that is delivered changes nothing of the container but its status.
  exec_in-get :
      (command : List Text) (s s' : D.State) (output : Text)
      → exec_in D env server command s ≡ (Result.ok output, s')
      → exited s' ≡ exited s
  unfolding exec_in
  exec_in-get command s s' output h = elim (Option-cases (D.exec_run s own command)) [
    | inl e ↦ absurd (ground arith)
    | inr ((code, text, t), e) ↦ elim (Bool-cases (code == 0)) [
      | inl z ↦
          let same : t ≡ s' = ground arith in
          subst (λ x. exited x ≡ exited s) same (L.get-exec_run s own command code text t own e)
      | inr z ↦ absurd (ground arith)
    ]
  ]

  write_stdin-get :
      (line : Text) (s s' : D.State) (output : Text)
      → write_stdin D env server line s ≡ (Result.ok output, s')
      → exited s' ≡ exited s
  unfolding write_stdin
  write_stdin-get line s s' output h = elim (Option-cases (D.send_stdin s own line)) [
    | inl e ↦ absurd (ground arith)
    | inr (t, e) ↦
        let same : t ≡ s' = ground arith in
        subst (λ x. exited x ≡ exited s) same (L.get-send_stdin s own line t own e)
  ]

  deliver-get :
      (c : Container) (text : Text) (s s' : D.State) (output : Text)
      → deliver D env server c text s ≡ (Result.ok output, s')
      → exited s' ≡ exited s
  unfolding deliver
  deliver-get c text s s' output h =
      elim (Bool-cases (has_label "io.talos-panel.runtime" (codes "itzg") c)) [
        | inr older ↦ write_stdin-get (text ++ (10 ∷ [])) s s' output (ground arith)
        | inl itzg ↦ elim (Bool-cases (has_label "io.talos-panel.console-mode" (codes "pipe") c)) [
          | inl pipe ↦
              let command = codes "mc-send-to-console" ∷ text ∷ [] in
              elim (Result-cases (exec_in D env server command s).0) [
                | inl (e, k) ↦ absurd (ground arith)
                | inr (o, k) ↦ exec_in-get command s s' o (ground arith)
              ]
          | inr rcon ↦
              let command = codes "rcon-cli" ∷ text ∷ [] in
              elim (Result-cases (exec_in D env server command s).0) [
                | inl (e, k) ↦ absurd (ground arith)
                | inr (o, k) ↦ exec_in-get command s s' o (ground arith)
              ]
        ]
      ]

  send_normalized-get :
      (text : Text) (s s' : D.State) (output : Text)
      → send_normalized D env server text s ≡ (Result.ok output, s')
      → exited s' ≡ exited s
  unfolding send_normalized managed_container
  send_normalized-get text s s' output h = elim (Option-cases (D.get s own)) [
    | inl missing ↦ absurd (ground arith)
    | inr (c, e) ↦ elim (Bool-cases (is_managed env.platform server.id c)) [
      | inr k ↦ absurd (ground arith)
      | inl k ↦ elim (Bool-cases (is_running c)) [
        | inr r ↦ absurd (ground arith)
        | inl r ↦ deliver-get c text s s' output (ground arith)
      ]
    ]
  ]

  pub send_command-get :
      (command : Text) (s s' : D.State) (output : Text)
      → send_command D env server command s ≡ (Result.ok output, s')
      → exited s' ≡ exited s
  unfolding send_command
  send_command-get command s s' output h =
      elim (Normalized-cases (normalize_console_command command)) [
        | inl (t, k) ↦ send_normalized-get t s s' output (ground arith)
        | inr (e, k) ↦ absurd (ground arith)
      ]

  -- The container has exited after the wait or the forced stop.
  pub wait_or_stop-get :
      (s s' : D.State) (u : Unit {0})
      → wait_or_stop D env server s ≡ (Result.ok u, s')
      → D.get s' own ≡ with_status "exited" (D.get s own)
  unfolding wait_or_stop
  wait_or_stop-get s s' u h = elim (Option-cases (D.wait s own)) [
    | inr (t, e) ↦
        let same : t ≡ s' = ground arith in
        subst (λ x. D.get x own ≡ with_status "exited" (D.get s own)) same
          (L.get-wait s own t own e ∙ ground (arith, text_refl own))
    | inl e ↦ elim (Option-cases (D.stop s own)) [
      | inl f ↦ absurd (ground arith)
      | inr (t, f) ↦
          let same : t ≡ s' = ground arith in
          subst (λ x. D.get x own ≡ with_status "exited" (D.get s own)) same
            (L.get-stop s own t own f ∙ ground (arith, text_refl own))
    ]
  ]
