-- ===== src/Files/Operations/Laws.antt =====
-- What a move touches.
use mathlib.Core.Path.{subst}
use talos_panel.Base.{
  ap, is_some, ◌≡◌, inl, inr, true, false, List, arith, [], ◌∷◌, ◌++◌, Bool-cases, ◌&&◌, Bool,
}
use talos_panel.Base.Text.{Text}
use talos_panel.Files.Operations.{
  FileOps, is_directory, has_parts, checked_paths, posix_path, is_os_error, or_file_error,
  move_path,
}
use talos_panel.Files.Paths.{validate_name, resolve_server_path}
use talos_panel.Files.Paths.Laws.{IsConfined, resolve_server_path-IsConfined}
use talos_panel.Handler.{◌>>=◌, pure, bind_inv}
use talos_panel.Http.{Result, Result-cases, Failure}

module _ {State : Type 0} (O : FileOps State) where
  -- The two paths that are found: both stay below the directory, the source is there, the destination
  -- is not, and no directory is put into itself.
  pub record IsMove (s : State) (source destination : List Text) : Type 0 where
    pub source_confined : IsConfined (O.tree s) source
    pub destination_confined : IsConfined (O.tree s) destination
    pub source_exists : is_some ((O.tree s).kind source) ≡ true
    pub destination_free : is_some ((O.tree s).kind destination) ≡ false
    pub not_into_itself :
        is_directory ((O.tree s).kind source) ≡ true → has_parts destination source ≡ false
    pub no_link_below :
        is_directory ((O.tree s).kind source) ≡ true → O.contains_symlink s source ≡ false

  -- The paths that a move or a copy goes on with are such, and nothing has been changed by then.
  pub checked_paths-IsMove :
      (source_value destination_parent name : Text) (source destination : List Text) (s s' : State)
      → checked_paths O source_value destination_parent name s
        ≡ (Result.ok (source, destination), s')
      → IsMove s source destination × (s' ≡ s)
  unfolding checked_paths
  checked_paths-IsMove source_value destination_parent name source destination s s' h =
      elim (Result-cases (validate_name name)) [
        | inl (e, a) ↦ absurd (ground arith)
        | inr (u, a) ↦ elim (Result-cases (resolve_server_path (O.tree s) source_value false)) [
          | inl (e, b) ↦ absurd (ground arith)
          | inr (from, b) ↦
              elim (Result-cases (resolve_server_path (O.tree s) destination_parent true)) [
                | inl (e, c) ↦ absurd (ground arith)
                | inr (parent, c) ↦
                    elim (Result-cases
                      (resolve_server_path (O.tree s) (posix_path (parent ++ name ∷ [])) false)) [
                        | inl (e, d) ↦ absurd (ground arith)
                        | inr (to, d) ↦
                            let tree = O.tree s in
                            let dir = is_directory (tree.kind from) in
                            elim (Bool-cases (is_some (tree.kind from))) [
                              | inr missing ↦ absurd (ground arith)
                              | inl there ↦ elim (Bool-cases (dir && O.contains_symlink s from)) [
                                | inl linked ↦ absurd (ground arith)
                                | inr plain ↦ elim (Bool-cases (is_some (tree.kind to))) [
                                  | inl taken ↦ absurd (ground arith)
                                  | inr free ↦ elim (Bool-cases (dir && has_parts to from)) [
                                    | inl within ↦ absurd (ground arith)
                                    | inr apart ↦
                                        let same : from ≡ source = ground arith in
                                        let same' : to ≡ destination = ground arith in
                                        (
                                          subst (λ x. IsMove s x destination) same
                                              (subst (λ y. IsMove s from y) same'
                                                (record {
                                                  source_confined =
                                                      (resolve_server_path-IsConfined tree
                                                        source_value false from b).0;
                                                  destination_confined =
                                                      (resolve_server_path-IsConfined tree
                                                        (posix_path (parent ++ name ∷ [])) false to
                                                        d).0;
                                                  source_exists = there;
                                                  destination_free = free;
                                                  not_into_itself = λ k. ground arith;
                                                  no_link_below = λ k. ground arith;
                                                })),
                                          ground arith,
                                        )
                                  ]
                                ]
                              ]
                            ]
                      ]
              ]
        ]
      ]

  or_file_error_inv :
      (caught : Failure → Bool) (m : State → Result (Unit {0}) × State) (s s' : State)
      (u : Unit {0})
      → or_file_error O caught m s ≡ (Result.ok u, s')
      → m s ≡ (Result.ok tt, s')
  or_file_error_inv caught m s s' u h = elim (Result-cases (m s).0) [
    | inl (e, k) ↦ absurd (ground arith)
    | inr (v, k) ↦ ground arith
  ]

  -- The renaming at the end of a move.
  replaced :
      (source found destination : List Text) (s t t' s' : State) (done : Unit {0})
      → IsMove s source found
      → t ≡ s
      → or_file_error O is_os_error (O.replace source found) t ≡ (Result.ok done, t')
      → pure found t' ≡ (Result.ok destination, s')
      → (from : List Text) × IsMove s from destination
        × (O.replace from destination s ≡ (Result.ok tt, s'))
  replaced source found destination s t t' s' done valid same e g =
      let place : found ≡ destination = cc (ap (λ r. r.0) g) in
      let end' : t' ≡ s' = ap (λ r. r.1) g in
      let call = or_file_error_inv is_os_error (O.replace source found) t t' done e in
      (
        source,
        subst (λ d. IsMove s source d) place valid,
        subst (λ d. O.replace source d s ≡ (Result.ok tt, s')) place
            (subst (λ x. O.replace source found x ≡ (Result.ok tt, s')) same
              (subst (λ x. O.replace source found t ≡ (Result.ok tt, x)) end' call)),
      )

  -- A move that succeeds is one renaming, of an existing item below the directory to a free path below
  -- it; neither path passes a link or lies in the part that the panel manages.
  pub move_path_sound :
      (source_value destination_parent name : Text) (destination : List Text) (s s' : State)
      → move_path O source_value destination_parent name s ≡ (Result.ok destination, s')
      → (source : List Text) × IsMove s source destination
        × (O.replace source destination s ≡ (Result.ok tt, s'))
  unfolding move_path
  move_path_sound source_value destination_parent name destination s s' h =
      let check = checked_paths O source_value destination_parent name in
      let go : List Text × List Text → State → Result (Unit {0}) × State =
        λ paths. or_file_error O is_os_error (O.replace paths.0 paths.1) in
      let (paths, t, e, g) =
        bind_inv check (λ paths. go paths >>= λ _. pure paths.1) s s' destination h in
      let (valid, same) =
        checked_paths-IsMove source_value destination_parent name paths.0 paths.1 s t e in
      let (done, t', e', g') = bind_inv (go paths) (λ _. pure paths.1) t s' destination g in
      replaced paths.0 paths.1 destination s t t' s' done valid same e' g'
