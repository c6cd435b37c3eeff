-- ===== src/Runtime/Docker.antt =====
-- The Docker client that talos_panel/runtime.py calls, as a parameter: what a container shows, the
-- calls, and what the panel relies on of them. A call that raises another error than `NotFound`
-- gives `none`.
use talos_panel.Base.{
  if◌then◌else◌, map_option, ℕ, String, ◌≡◌, Bool, false, Option, none, some, List, [], ◌∷◌, str_eq,
}
use talos_panel.Base.Text.{Text, text_eq}

pub record Container : Type 0 where
  pub id : Text
  pub status : String
  pub labels : List (String × Text)
  pub restart_policy : String

pub record Stats : Type 0 where
  pub usage : Option ℕ
  pub inactive_file : ℕ
  pub limit : Option ℕ
  pub cpu_percent : Option ℕ

-- The arguments of `containers.run` that the panel fills in.
pub record RunSpec : Type 0 where
  pub name : Text
  pub image : Text
  pub host_port : ℕ
  pub volume : Text
  pub environment : List (String × Text)
  pub mem_limit : Text
  pub labels : List (String × Text)

pub record Docker : Type 1 where
  pub State : Type 0
  -- `containers.get`, which reads the attributes and the status; `none` is `NotFound`.
  pub get : State → Text → Option Container
  -- `containers.run` creates the container and starts it: its identifier, or none for an `APIError`,
  -- which may leave the container that was created.
  pub run : State → RunSpec → Option Text × State
  pub start : State → Text → Option State
  pub stop : State → Text → Option State
  pub remove : State → Text → Option State
  pub set_restart_policy : State → Text → String → Option State
  -- `exec_run` of a command in the container: the exit code and the output.
  pub exec_run : State → Text → List Text → Option (ℕ × Text × State)
  -- `container.wait` with a time limit: `none` when it has passed.
  pub wait : State → Text → Option State
  -- One text written to the standard input of the container.
  pub send_stdin : State → Text → Text → Option State
  -- `container.stats`: bytes in use, bytes of inactive files, the limit, and the processor share as
  -- the panel rounds it.
  pub stats : State → Text → Option Stats

abbrev pub with_status : String → Option Container → Option Container
with_status status c = map_option {A = Container} (λ c. record c { status = status }) c

-- Each call changes the container of its name alone.
pub record IsLawful (D : Docker) : Type 0 where
  pub get-run :
      (s : D.State) (spec : RunSpec) (id : Text) (s' : D.State) (n : Text)
      → D.run s spec ≡ (some id, s')
      → D.get s' n ≡ (
          if text_eq spec.name n
          then some
              (record { id = id; status = "running"; labels = spec.labels; restart_policy = "no" })
          else D.get s n)
  pub get-start :
      (s : D.State) (name : Text) (s' : D.State) (n : Text)
      → D.start s name ≡ some s'
      → D.get s' n ≡ (if text_eq name n then with_status "running" (D.get s n) else D.get s n)
  pub get-stop :
      (s : D.State) (name : Text) (s' : D.State) (n : Text)
      → D.stop s name ≡ some s'
      → D.get s' n ≡ (if text_eq name n then with_status "exited" (D.get s n) else D.get s n)
  pub get-wait :
      (s : D.State) (name : Text) (s' : D.State) (n : Text)
      → D.wait s name ≡ some s'
      → D.get s' n ≡ (if text_eq name n then with_status "exited" (D.get s n) else D.get s n)
  -- A command that is run in a container, or a text that is written to it, changes nothing of any
  -- container but its status.
  pub get-exec_run :
      (s : D.State) (name : Text) (command : List Text) (code : ℕ) (output : Text) (s' : D.State)
      (n : Text)
      → D.exec_run s name command ≡ some (code, output, s')
      → with_status "exited" (D.get s' n) ≡ with_status "exited" (D.get s n)
  pub get-send_stdin :
      (s : D.State) (name line : Text) (s' : D.State) (n : Text)
      → D.send_stdin s name line ≡ some s'
      → with_status "exited" (D.get s' n) ≡ with_status "exited" (D.get s n)
  pub get-remove :
      (s : D.State) (name : Text) (s' : D.State) (n : Text)
      → D.remove s name ≡ some s'
      → D.get s' n ≡ (if text_eq name n then none else D.get s n)

abbrev pub label : String → List (String × Text) → Option Text
label k [] = none
label k ((j, v) ∷ rest) = if str_eq j k then some v else label k rest

-- `labels.get(key) == value`.
abbrev pub has_label : String → Text → Container → Bool
has_label key value c = elim (label key c.labels) [ none ↦ false | some v ↦ text_eq v value ]
