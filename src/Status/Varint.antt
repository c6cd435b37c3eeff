-- ===== src/Status/Varint.antt =====
-- talos_panel/minecraft_status.py: `_varint`, `_decode_varint` and `_read_varint`.
pub mod Laws
pub mod Stream
use talos_panel.Base.{
  leb, ◌==◌, if◌then◌else◌, ℕ, zero, suc, ◌+◌, ◌*◌, ◌/◌, ◌%◌, ◌^◌, Option, none, some, List, [],
  ◌∷◌,
}
use talos_panel.Handler.{Exec}
use talos_panel.Http.{Failure, Result}

abbrev pub status_error : Failure
status_error = Failure.crash "MinecraftStatusError"

-- The loop of `_varint`, on fuel: seven bits in a byte, whose highest bit says that more follow.
unfoldable pub groups : ℕ → ℕ → List ℕ
groups zero value = []
groups (suc fuel) value =
    let rest = groups fuel (value / 128) in
    if value / 128 == 0 then value % 128 ∷ [] else (value % 128 + 128) ∷ rest

-- `_varint` of a value that is not negative; five bytes hold the 32 bits that are kept.
unfoldable pub varint : ℕ → List ℕ
varint value = groups 5 (value % 2 ^ 32)

-- `payload[offset]`, or none past the end.
abbrev pub get_elem? : List ℕ → ℕ → Option ℕ
get_elem? [] n = none
get_elem? (x ∷ xs) zero = some x
get_elem? (x ∷ xs) (suc n) = get_elem? xs n

-- The loop of `_decode_varint` over the positions: the groups do not overlap, so that the bitwise or
-- of the shifted ones is their sum, at the scale `2 ** (7 * position)`.
unfoldable pub decode_from : ℕ → ℕ → ℕ → List ℕ → ℕ → Result (ℕ × ℕ)
decode_from zero scale result payload offset = Result.err status_error
decode_from (suc positions) scale result payload offset = elim (get_elem? payload offset) [
  | none ↦ Result.err status_error
  | some byte ↦
      let next = result + byte % 128 * scale in
      let rest = decode_from positions (scale * 128) next payload (offset + 1) in
      if leb 128 byte then rest else Result.ok (next, offset + 1)
]

unfoldable pub decode_varint : List ℕ → ℕ → Result (ℕ × ℕ)
decode_varint payload offset = decode_from 5 1 0 payload offset

-- `_read_varint`: the same loop over the bytes of a connection, whose end is an exception.
unfoldable pub read_from : ℕ → ℕ → ℕ → Exec (List ℕ) ℕ
read_from zero scale result bytes = (Result.err status_error, bytes)
read_from (suc positions) scale result [] = (Result.err (Failure.crash "IncompleteReadError"), [])
read_from (suc positions) scale result (byte ∷ bytes) =
    let next = result + byte % 128 * scale in
    let rest = read_from positions (scale * 128) next bytes in
    if leb 128 byte then rest else (Result.ok next, bytes)

unfoldable pub read_varint : Exec (List ℕ) ℕ
read_varint bytes = read_from 5 1 0 bytes
