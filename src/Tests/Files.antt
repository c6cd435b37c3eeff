-- ===== src/Tests/Files.antt =====
-- The paths of the file manager and the status protocol at concrete inputs.
use talos_panel.Base.{◌≡◌, refl, false, List, [], ◌∷◌, ◌++◌, arith}
use talos_panel.Base.Text.{Text, codes, split_on}
use talos_panel.Files.Operations.{posix_path, checked_paths, move_path}
use talos_panel.Files.Operations.Laws.{IsMove, move_path_sound}
use talos_panel.Files.Paths.{
  is_bad_character, path_parts, relative_path, passes_link, resolve_server_path, is_valid_name,
  validate_name,
}
use talos_panel.Files.Paths.Laws.{IsConfined, resolve_server_path-IsConfined}
use talos_panel.Http.{Result}
use talos_panel.Runtime.JvmFlags.{utf8_length}
use talos_panel.Status.Packet.{read_response, response_bytes}
use talos_panel.Status.Packet.Laws.{read_response-response_bytes}
use talos_panel.Tests.Pages.{tree, files}

resolve_server_path-IsConfined_example :
    IsConfined tree (codes "config" ∷ codes "ops.json" ∷ [])
    × (false ≡ false → tree.resolves_to_root (codes "config" ∷ codes "ops.json" ∷ []) ≡ false)
unfolding resolve_server_path relative_path path_parts split_on passes_link is_bad_character
    posix_path
resolve_server_path-IsConfined_example =
    resolve_server_path-IsConfined tree (codes "config/./ops.json") false
      (codes "config" ∷ codes "ops.json" ∷ []) refl

move_path_sound_example :
    (source : List Text) × IsMove (files 5) tt source (codes "old.json" ∷ [])
    × ((files 5).replace source (codes "old.json" ∷ []) tt ≡ (Result.ok tt, tt))
unfolding move_path checked_paths validate_name is_valid_name utf8_length resolve_server_path
    relative_path path_parts split_on passes_link is_bad_character posix_path
move_path_sound_example =
    move_path_sound (files 5) (codes "ops.json") [] (codes "old.json") (codes "old.json" ∷ []) tt tt
      refl

read_response-response_bytes_example :
    read_response (response_bytes (codes "{}") ++ (1 ∷ 2 ∷ []))
    ≡ (Result.ok (codes "{}"), 1 ∷ 2 ∷ [])
read_response-response_bytes_example =
    read_response-response_bytes (codes "{}") (1 ∷ 2 ∷ []) (omega arith)
