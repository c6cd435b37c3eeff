-- ===== src/Status/Packet.antt =====
-- talos_panel/minecraft_status.py: `_string`, `_read_packet`, and the handshake and the answer of
-- `query_minecraft_status` up to the JSON text of the answer.
pub mod Laws
use talos_panel.Base.{
  ltb, leb, ◌==◌, if◌then◌else◌, length, take, drop, ℕ, ◌+◌, ◌-◌, ◌*◌, ◌/◌, ◌%◌, ◌^◌, not, ◌||◌,
  List, [], ◌∷◌, ◌++◌,
}
use talos_panel.Handler.{◌>>=◌, ◌>>◌, Exec, lift}
use talos_panel.Http.{Failure, Result, raise_if}
use talos_panel.Status.Varint.{status_error, varint, decode_varint, read_varint}

abbrev pub max_packet_bytes : ℕ
max_packet_bytes = 2 * 1024 * 1024

abbrev pub max_string_bytes : ℕ
max_string_bytes = 32767 * 4

-- `_string` of a text that is encoded already.
unfoldable pub string_bytes : List ℕ → List ℕ
string_bytes encoded = varint (length encoded) ++ encoded

-- What is written to the connection: the handshake with its length, and the request. The protocol
-- version -1 keeps all of its 32 bits.
unfoldable pub request_bytes : List ℕ → ℕ → List ℕ
request_bytes host port =
    let handshake =
      varint 0
      ++ varint (2 ^ 32 - 1)
      ++ string_bytes host
      ++ (port / 256 ∷ port % 256 ∷ [])
      ++ varint 1 in
    varint (length handshake) ++ handshake ++ varint 1 ++ varint 0

-- `reader.readexactly`.
unfoldable pub read_exactly : ℕ → Exec (List ℕ) (List ℕ)
read_exactly n bytes =
    if leb n (length bytes)
    then (Result.ok (take n bytes), drop n bytes)
    else (Result.err (Failure.crash "IncompleteReadError"), [])

unfoldable pub read_packet : Exec (List ℕ) (List ℕ)
read_packet = do
  length' ← read_varint
  lift (raise_if (ltb length' 1 || ltb max_packet_bytes length') status_error)
  read_exactly length'

-- The checks of the packet and the bytes of the JSON text in it.
unfoldable pub response_text : List ℕ → Result (List ℕ)
response_text packet = elim (decode_varint packet 0) [
  | Result.err e ↦ Result.err e
  | Result.ok (packet_id, offset) ↦
      if not (packet_id == 0)
      then Result.err status_error
      else (elim (decode_varint packet offset) [
        | Result.err e ↦ Result.err e
        | Result.ok (string_length, start) ↦
            if ltb max_string_bytes string_length || not (start + string_length == length packet)
            then Result.err status_error
            else Result.ok (drop start packet)
      ])
]

-- What the answer of a server gives to the panel, read off the connection.
unfoldable pub read_response : Exec (List ℕ) (List ℕ)
read_response = do packet ← read_packet; lift (response_text packet)

-- A server's answer with a text, as the protocol says.
unfoldable pub response_bytes : List ℕ → List ℕ
response_bytes text = let packet = varint 0 ++ string_bytes text in varint (length packet) ++ packet
