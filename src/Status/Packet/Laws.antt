-- ===== src/Status/Packet/Laws.antt =====
-- The answer that a server sends is read back.
use mathlib.Core.List.{append_assoc}
use mathlib.Core.Path.{subst}
use talos_panel.Base.{
  sym, ap, leb, le→leb, length, take, drop, length-append, ℕ, ◌≤◌, ◌≡◌, refl, true, List, [], ◌∷◌,
  ◌++◌, arith, ltb, ◌==◌, ◌+◌, ◌%◌, ◌^◌, ◌∙◌, false, ◌||◌, suc,
}
use talos_panel.Handler.{◌>>=◌, Exec, lift, bind-ok}
use talos_panel.Http.{Result, raise_if}
use talos_panel.Status.Packet.{
  max_string_bytes, string_bytes, read_exactly, read_packet, response_text, read_response,
  response_bytes, max_packet_bytes,
}
use talos_panel.Status.Varint.{varint, decode_varint, groups, read_varint, status_error}
use talos_panel.Status.Varint.Laws.{decode_varint-varint}
use talos_panel.Status.Varint.Stream.{read_varint-varint, length-varint}

take-length : (xs ys : List ℕ) → take (length xs) (xs ++ ys) ≡ xs
take-length [] ys = refl
take-length (x ∷ xs) ys = ap (λ l. x ∷ l) (take-length xs ys)

drop-length : (xs ys : List ℕ) → drop (length xs) (xs ++ ys) ≡ ys
drop-length [] ys = refl
drop-length (x ∷ xs) ys = drop-length xs ys

read_exactly-length : (xs ys : List ℕ) → read_exactly (length xs) (xs ++ ys) ≡ (Result.ok xs, ys)
unfolding read_exactly
read_exactly-length xs ys =
    let enough : leb (length xs) (length (xs ++ ys)) ≡ true =
      le→leb (length xs) (length (xs ++ ys)) (omega (arith, length-append xs ys)) in
    rw (enough, take-length xs ys, drop-length xs ys, read_exactly) refl

varint-zero : varint 0 ≡ 0 ∷ []
unfolding varint groups
varint-zero = refl

-- The packet of an answer passes the checks.
response_text-size :
    (text : List ℕ)
    → length text ≤ max_string_bytes
    → response_text (0 ∷ (varint (length text) ++ text)) ≡ Result.ok text
unfolding response_text
response_text-size text short =
    let size = varint (length text) in
    let packet = 0 ∷ (size ++ text) in
    let first : decode_varint packet 0 ≡ Result.ok (0, 1) =
      subst (λ v. decode_varint (v ++ (size ++ text)) 0 ≡ Result.ok (0, 0 + length v)) varint-zero
        (decode_varint-varint 0 [] (size ++ text)) in
    let whole : length text % 2 ^ 32 ≡ length text = omega arith in
    let second : decode_varint packet 1 ≡ Result.ok (length text, 1 + length size) =
      subst (λ n. decode_varint packet 1 ≡ Result.ok (n, 1 + length size)) whole
        (decode_varint-varint (length text) (0 ∷ []) text) in
    let fits : ltb max_string_bytes (length text) ≡ false = ground arith in
    let ends : (1 + length size + length text == length packet) ≡ true =
      rw (length-append size text) (ground arith) in
    let up : 1 + length size ≡ suc (length size) = omega arith in
    let rest : drop (1 + length size) packet ≡ text =
      ap (λ n. drop n packet) up ∙ drop-length size text in
    rw (first, second, fits, ends, rest, response_text) refl

response_text-string_bytes :
    (text : List ℕ)
    → length text ≤ max_string_bytes
    → response_text (varint 0 ++ string_bytes text) ≡ Result.ok text
unfolding string_bytes
response_text-string_bytes text short = rw varint-zero (response_text-size text short)

-- Its length passes the check of the packet's size.
length-packet :
    (text : List ℕ)
    → length text ≤ max_string_bytes
    → let n = length (varint 0 ++ string_bytes text) in (1 ≤ n) × (n ≤ max_packet_bytes)
unfolding string_bytes
length-packet text short =
    let sum = length-append (varint (length text)) text in
    let few = length-varint (length text) in rw varint-zero (omega arith, omega arith)

-- A packet of an allowed size that arrives is read, and what follows it is left.
read_packet-varint :
    (packet rest : List ℕ)
    → 1 ≤ length packet
    → length packet ≤ max_packet_bytes
    → read_packet (varint (length packet) ++ (packet ++ rest)) ≡ (Result.ok packet, rest)
unfolding read_packet
read_packet-varint packet rest some' short =
    let whole : length packet % 2 ^ 32 ≡ length packet = omega arith in
    let size =
      subst
        (λ n.
          read_varint (varint (length packet) ++ (packet ++ rest)) ≡ (Result.ok n, packet ++ rest))
        whole (read_varint-varint (length packet) (packet ++ rest)) in
    let allowed : (ltb (length packet) 1 || ltb max_packet_bytes (length packet)) ≡ false =
      ground arith in
    let body : ℕ → Exec (List ℕ) (List ℕ) = λ n.
      lift (raise_if (ltb n 1 || ltb max_packet_bytes n) status_error) >>= λ _. read_exactly n in
    let read : body (length packet) (packet ++ rest) ≡ (Result.ok packet, rest) =
      rw (allowed, ◌>>=◌) (read_exactly-length packet rest) in
    bind-ok read_varint body (varint (length packet) ++ (packet ++ rest)) (packet ++ rest)
      (length packet) (ap (λ r. r.0) size) (ap (λ r. r.1) size)
    ∙ read

-- The answer of a server with a text of an allowed length is read whole, whatever follows it.
pub read_response-response_bytes :
    (text rest : List ℕ)
    → length text ≤ max_string_bytes
    → read_response (response_bytes text ++ rest) ≡ (Result.ok text, rest)
unfolding read_response response_bytes
read_response-response_bytes text rest short =
    let packet = varint 0 ++ string_bytes text in
    let (some', fits) = length-packet text short in
    let arrived : read_packet ((varint (length packet) ++ packet) ++ rest)
        ≡ (Result.ok packet, rest) =
      subst (λ l. read_packet l ≡ (Result.ok packet, rest))
        (sym (append_assoc (varint (length packet)) packet rest))
        (read_packet-varint packet rest some' fits) in
    rw (ap (λ r. r.0) arrived, ap (λ r. r.1) arrived, ◌>>=◌)
      (rw (response_text-string_bytes text short) refl)
