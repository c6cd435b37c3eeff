-- ===== src/Runtime/LifeCycle/Traces.antt =====
-- A stop, and sequences of calls, against the lives of LifeCycle.
use mathlib.Core.Path.{subst}
use talos_panel.Base.{
  ap, sym, Bool-cases, Option-cases, String, ◌≡◌, refl, ◌∙◌, inl, inr, true, Option, some, arith,
  List, [], ◌∷◌,
}
use talos_panel.Base.Text.{Text, codes}
use talos_panel.Http.{Result, Result-cases}
use talos_panel.Models.Servers.{MinecraftServer}
use talos_panel.Runtime.Commands.{stop, send_command, wait_or_stop}
use talos_panel.Runtime.Containers.{
  start, remove, status, RuntimeEnv, container_name, is_running, is_managed, managed_container,
}
use talos_panel.Runtime.Docker.{Container, Docker, with_status, IsLawful}
use talos_panel.Runtime.LifeCycle.{
  Call, life_after, life_of, Managed, life_after_all, run_call, run_calls, life,
}
use talos_panel.Runtime.LifeCycle.Refinement.{
  Kept, send_command-get, wait_or_stop-get, start-Kept, remove-Kept, status-Kept,
}

module _ (D : Docker) (L : IsLawful D) (env : RuntimeEnv) (server : MinecraftServer) where
  -- The container after a stop that had something to stop.
  exited-Kept :
      (s s' : D.State) (c : Container)
      → D.get s (container_name env.platform server.id) ≡ some c
      → is_managed env.platform server.id c ≡ true
      → is_running c ≡ true
      → D.get s' (container_name env.platform server.id) ≡ with_status "exited" (some c)
      → Kept D L env server Call.to_stop s s'
  unfolding life_after life_of is_managed
  exited-Kept s s' c e m r there = (
    λ d f.
        let same : record c { status = "exited" } ≡ d = cc (sym there ∙ f) in
        subst (λ x. is_managed env.platform server.id x ≡ true) same m,
    rw (there, e, life_of, r) refl,
  )

  stop-Kept :
      (s s' : D.State) (r : Option Text × String)
      → Managed D env server s
      → stop D env server s ≡ (Result.ok r, s')
      → Kept D L env server Call.to_stop s s'
  unfolding stop managed_container life_after life_of
  stop-Kept s s' r m h =
      let name = container_name env.platform server.id in
      elim (Option-cases (D.get s name)) [
        | inl missing ↦
            let same : s ≡ s' = ground arith in
            subst (λ x. Kept D L env server Call.to_stop s x) same (m, rw (missing, life_of) refl)
        | inr (c, e) ↦
            let own : is_managed env.platform server.id c ≡ true = m c e in
            elim (Bool-cases (is_running c)) [
              | inr halted ↦
                  let same : s ≡ s' = ground arith in
                  subst (λ x. Kept D L env server Call.to_stop s x) same
                    (m, rw (e, life_of, halted) refl)
              | inl runs ↦ elim (Result-cases (send_command D env server (codes "stop") s).0) [
                | inl (problem, k) ↦ absurd (ground arith)
                | inr (output, k) ↦
                    let t = (send_command D env server (codes "stop") s).1 in
                    let sent : with_status "exited" (D.get t name)
                        ≡ with_status "exited" (D.get s name) =
                      send_command-get D L env server (codes "stop") s t output (ground arith) in
                    elim (Result-cases (wait_or_stop D env server t).0) [
                      | inl (problem, l) ↦ absurd (ground arith)
                      | inr (u, l) ↦
                          let there : D.get s' name ≡ with_status "exited" (D.get t name) =
                            wait_or_stop-get D L env server t s' u (ground arith) in
                          exited-Kept s s' c e own runs (there ∙ sent ∙ rw (e) refl)
                    ]
              ]
            ]
      ]

  run_call-Kept :
      (call : Call) (s s' : D.State) (u : Unit {0})
      → Managed D env server s
      → run_call D env server call s ≡ (Result.ok u, s')
      → Kept D L env server call s s'
  unfolding run_call
  run_call-Kept Call.to_start s s' u m h = elim (Result-cases (start D env server s).0) [
    | inl (e, k) ↦ absurd (ground arith)
    | inr (r, k) ↦ start-Kept D L env server s s' r (ground arith)
  ]
  run_call-Kept Call.to_stop s s' u m h = elim (Result-cases (stop D env server s).0) [
    | inl (e, k) ↦ absurd (ground arith)
    | inr (r, k) ↦ stop-Kept s s' r m (ground arith)
  ]
  run_call-Kept Call.to_remove s s' u m h = elim (Result-cases (remove D env server s).0) [
    | inl (e, k) ↦ absurd (ground arith)
    | inr (r, k) ↦ remove-Kept D L env server s s' r (ground arith)
  ]
  run_call-Kept Call.to_ask s s' u m h = elim (Result-cases (status D env server s).0) [
    | inl (e, k) ↦ absurd (ground arith)
    | inr (r, k) ↦ status-Kept D L env server s s' r m (ground arith)
  ]

  -- Any sequence of calls that succeed takes the server through the lives that are promised.
  pub runtime_refines_life :
      (calls : List Call) (s s' : D.State) (u : Unit {0})
      → Managed D env server s
      → run_calls D env server calls s ≡ (Result.ok u, s')
      → Managed D env server s'
        × (life D env server s' ≡ life_after_all calls (life D env server s))
  unfolding run_calls life_after_all
  runtime_refines_life [] s s' u m h =
      let same : s ≡ s' = ground arith in
      subst (λ x. Managed D env server x × (life D env server x ≡ life D env server s)) same
        (m, refl)
  runtime_refines_life (call ∷ calls) s s' u m h =
      elim (Result-cases (run_call D env server call s).0) [
        | inl (e, k) ↦ absurd (ground arith)
        | inr (v, k) ↦
            let t = (run_call D env server call s).1 in
            let (managed, step) = run_call-Kept call s t v m (ground arith) in
            let (ended, rest) = runtime_refines_life calls t s' u managed (ground arith) in
            (ended, rest ∙ ap (life_after_all calls) step)
      ]
