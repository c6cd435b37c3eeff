-- ===== src/Status/Varint/Stream.antt =====
-- A VarInt that arrives on a connection is read back.
use mathlib.Core.Path.{ap}
use talos_panel.Base.{
  leb, ◌==◌, Bool-cases, length, ℕ, zero, suc, ◌+◌, ◌*◌, ◌/◌, ◌%◌, ◌^◌, ◌≤◌, ◌≡◌, refl, ap, ◌∙◌,
  inl, inr, true, false, List, ◌∷◌, ◌++◌, arith,
}
use talos_panel.Http.{Result}
use talos_panel.Status.Varint.{groups, varint, read_from, read_varint}
use talos_panel.Status.Varint.Laws.{
  Fits, scaled_groups, one_byte, more_byte, groups-last, groups-more, word-Fits,
}

read_from-last :
    (positions scale result byte : ℕ) (bytes : List ℕ)
    → leb 128 byte ≡ false
    → read_from (suc positions) scale result (byte ∷ bytes)
      ≡ (Result.ok (result + byte % 128 * scale), bytes)
unfolding read_from
read_from-last positions scale result byte bytes last = rw (last, read_from) refl

read_from-more :
    (positions scale result byte : ℕ) (bytes : List ℕ)
    → leb 128 byte ≡ true
    → read_from (suc positions) scale result (byte ∷ bytes)
      ≡ read_from positions (scale * 128) (result + byte % 128 * scale) bytes
unfolding read_from
read_from-more positions scale result byte bytes more = rw (more, read_from) refl

read_from-one :
    (fuel value scale result : ℕ) (back : List ℕ)
    → (value / 128 == 0) ≡ true
    → read_from (suc fuel) scale result (groups (suc fuel) value ++ back)
      ≡ (Result.ok (result + value * scale), back)
read_from-one fuel value scale result back last =
    let group : value % 128 ≡ value = ground arith in
    let byte = one_byte (value % 128) (omega arith) in
    rw (groups-last fuel value last)
      (read_from-last fuel scale result (value % 128) back byte.0 ∙ rw (byte.1, group) refl)

read_from-groups :
    (fuel value scale result : ℕ) (back : List ℕ)
    → Fits fuel (value / 128)
    → read_from (suc fuel) scale result (groups (suc fuel) value ++ back)
      ≡ (Result.ok (result + value * scale), back)
unfolding Fits
read_from-groups zero value scale result back fits =
    read_from-one zero value scale result back (ground arith)
read_from-groups (suc fuel) value scale result back fits = elim (Bool-cases (value / 128 == 0)) [
  | inl last ↦ read_from-one (suc fuel) value scale result back last
  | inr more ↦
      let group = value % 128 in
      let (high, low) = more_byte group (omega arith) in
      let g = groups (suc fuel) (value / 128) in
      let total : result + group * scale + value / 128 * (scale * 128) ≡ result + value * scale =
        omega (arith, scaled_groups value scale) in
      rw (groups-more (suc fuel) value more) (
        read_from-more (suc fuel) scale result (group + 128) (g ++ back) high
        ∙ ap (λ r. read_from (suc fuel) (scale * 128) (result + r * scale) (g ++ back)) low
        ∙ read_from-groups fuel (value / 128) (scale * 128) (result + group * scale) back fits
        ∙ ap (λ n. (Result.ok n, back)) total)
]

pub read_varint-varint :
    (value : ℕ) (back : List ℕ)
    → read_varint (varint value ++ back) ≡ (Result.ok (value % 2 ^ 32), back)
unfolding read_varint varint
read_varint-varint value back =
    read_from-groups 4 (value % 2 ^ 32) 1 0 back (word-Fits value)
    ∙ ap (λ n. (Result.ok n, back)) (omega arith)

length-groups : (fuel value : ℕ) → length (groups fuel value) ≤ fuel
unfolding groups
length-groups zero value = omega arith
length-groups (suc fuel) value = ground (arith, length-groups fuel (value / 128))

pub length-varint : (value : ℕ) → length (varint value) ≤ 5
unfolding varint
length-varint value = length-groups 5 (value % 2 ^ 32)
