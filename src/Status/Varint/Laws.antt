-- ===== src/Status/Varint/Laws.antt =====
-- VarInts can be read back.
use mathlib.Core.List.{append_assoc}
use mathlib.Core.Path.{subst}
use native.Mathlib.Nat.{mul_assoc, add-mul}
use talos_panel.Base.{
  sym, ap, leb, length, ℕ, zero, suc, ◌+◌, ◌*◌, ◌/◌, ◌%◌, ◌<◌, ◌≡◌, refl, true, false, some, List,
  [], ◌∷◌, ◌++◌, arith, ◌==◌, Bool-cases, ◌∙◌, inl, inr, length-append, ◌^◌,
}
use talos_panel.Http.{Result}
use talos_panel.Status.Varint.{groups, get_elem?, decode_from, varint, decode_varint}

-- So many groups hold the number.
unfoldable pub Fits : ℕ → ℕ → Type 0
Fits zero value = value ≡ 0
Fits (suc fuel) value = Fits fuel (value / 128)

get_elem?-length :
    (front back : List ℕ) (x : ℕ) → get_elem? (front ++ (x ∷ back)) (length front) ≡ some x
get_elem?-length [] back x = refl
get_elem?-length (y ∷ front) back x = get_elem?-length front back x

-- A group and the groups above it, at a scale.
pub scaled_groups :
    (value scale : ℕ) → value % 128 * scale + value / 128 * (scale * 128) ≡ value * scale
scaled_groups value scale =
    let a = value % 128 in
    let b = value / 128 in
    let turn : scale * 128 ≡ 128 * scale = omega arith in
    let whole : a + b * 128 ≡ value = omega arith in
    ap (λ x. a * scale + b * x) turn
    ∙ ap (λ x. a * scale + x) (sym (mul_assoc b 128 scale))
    ∙ sym (add-mul a (b * 128) scale)
    ∙ ap (λ x. x * scale) whole

pub one_byte : (byte : ℕ) → byte < 128 → (leb 128 byte ≡ false) × (byte % 128 ≡ byte)
one_byte byte h = (ground arith, omega arith)

pub more_byte :
    (group : ℕ) → group < 128 → (leb 128 (group + 128) ≡ true) × ((group + 128) % 128 ≡ group)
more_byte group h = (ground arith, omega arith)

-- A byte at the offset, with more to come or the last one.
decode_from-more :
    (positions scale result offset byte : ℕ) (payload : List ℕ)
    → get_elem? payload offset ≡ some byte
    → leb 128 byte ≡ true
    → decode_from (suc positions) scale result payload offset
      ≡ decode_from positions (scale * 128) (result + byte % 128 * scale) payload (offset + 1)
unfolding decode_from
decode_from-more positions scale result offset byte payload here more =
    rw (here, more, decode_from) refl

decode_from-last :
    (positions scale result offset byte : ℕ) (payload : List ℕ)
    → get_elem? payload offset ≡ some byte
    → leb 128 byte ≡ false
    → decode_from (suc positions) scale result payload offset
      ≡ Result.ok (result + byte % 128 * scale, offset + 1)
unfolding decode_from
decode_from-last positions scale result offset byte payload here last =
    rw (here, last, decode_from) refl

pub groups-last :
    (fuel value : ℕ) → (value / 128 == 0) ≡ true → groups (suc fuel) value ≡ value % 128 ∷ []
unfolding groups
groups-last fuel value h = rw h refl

pub groups-more :
    (fuel value : ℕ)
    → (value / 128 == 0) ≡ false
    → groups (suc fuel) value ≡ (value % 128 + 128) ∷ groups fuel (value / 128)
unfolding groups
groups-more fuel value h = rw h refl

-- A value of a single group.
decode_from-one :
    (fuel value scale result : ℕ) (front back : List ℕ)
    → (value / 128 == 0) ≡ true
    → decode_from
        (suc fuel)
        scale
        result
        (front ++ (groups (suc fuel) value ++ back))
        (length front)
      ≡ Result.ok (result + value * scale, length front + length (groups (suc fuel) value))
decode_from-one fuel value scale result front back last =
    let group : value % 128 ≡ value = ground arith in
    let byte = one_byte (value % 128) (omega arith) in
    rw (groups-last fuel value last) (
      decode_from-last fuel scale result (length front) (value % 128)
        (front ++ (value % 128 ∷ back)) (get_elem?-length front back (value % 128)) byte.0
      ∙ rw (byte.1, group) refl)

pair_path : {a b c d : ℕ} → a ≡ b → c ≡ d → ◌≡◌ {A = ℕ × ℕ} (a, c) (b, d)
pair_path e f = rw (e, f) refl

-- Reading the groups of a value that fits gives the value, at the scale, and the end of the groups.
decode_from-groups :
    (fuel value scale result : ℕ) (front back : List ℕ)
    → Fits fuel (value / 128)
    → decode_from
        (suc fuel)
        scale
        result
        (front ++ (groups (suc fuel) value ++ back))
        (length front)
      ≡ Result.ok (result + value * scale, length front + length (groups (suc fuel) value))
unfolding Fits
decode_from-groups zero value scale result front back fits =
    decode_from-one zero value scale result front back (ground arith)
decode_from-groups (suc fuel) value scale result front back fits =
    elim (Bool-cases (value / 128 == 0)) [
      | inl last ↦ decode_from-one (suc fuel) value scale result front back last
      | inr more ↦
          let group = value % 128 in
          let byte = group + 128 in
          let (high, low) = more_byte group (omega arith) in
          let g = groups (suc fuel) (value / 128) in
          let front' = front ++ (byte ∷ []) in
          let here = get_elem?-length front (g ++ back) byte in
          let ih =
            decode_from-groups fuel (value / 128) (scale * 128) (result + group * scale) front' back
              fits in
          let place : front' ++ (g ++ back) ≡ front ++ (byte ∷ (g ++ back)) =
            append_assoc front (byte ∷ []) (g ++ back) in
          let size : length front' ≡ length front + 1 = length-append front (byte ∷ []) in
          let moved : decode_from (suc fuel) (scale * 128) (result + group * scale)
                (front ++ (byte ∷ (g ++ back))) (length front + 1)
              ≡ Result.ok (
                result + group * scale + value / 128 * (scale * 128),
                length front + 1 + length g,
              ) =
            subst
              (λ l.
                decode_from (suc fuel) (scale * 128) (result + group * scale) l (length front + 1)
                ≡ Result.ok (
                  result + group * scale + value / 128 * (scale * 128),
                  length front + 1 + length g,
                ))
              place
              (subst
                (λ n.
                  decode_from (suc fuel) (scale * 128) (result + group * scale)
                    (front' ++ (g ++ back)) n
                  ≡ Result.ok (result + group * scale + value / 128 * (scale * 128), n + length g))
                size ih) in
          let total : result + group * scale + value / 128 * (scale * 128)
              ≡ result + value * scale =
            omega (arith, scaled_groups value scale) in
          let place' : length front + 1 + length g ≡ length front + suc (length g) = omega arith in
          let step =
            decode_from-more (suc fuel) scale result (length front) byte
              (front ++ (byte ∷ (g ++ back))) here high in
          rw (groups-more (suc fuel) value more) (
            step
            ∙ ap
                (λ r.
                  decode_from (suc fuel) (scale * 128) (result + r * scale)
                    (front ++ (byte ∷ (g ++ back))) (length front + 1))
                low
            ∙ moved
            ∙ ap (λ r. Result.ok r) (pair_path total place'))
    ]

-- Five groups hold 32 bits.
pub word-Fits : (value : ℕ) → Fits 4 (value % 2 ^ 32 / 128)
unfolding Fits
word-Fits value = omega arith

-- A VarInt that stands anywhere in a payload is read back as the 32 bits of its value, and the offset
-- that is returned is the one behind it.
pub decode_varint-varint :
    (value : ℕ) (front back : List ℕ)
    → decode_varint (front ++ (varint value ++ back)) (length front)
      ≡ Result.ok (value % 2 ^ 32, length front + length (varint value))
unfolding decode_varint varint
decode_varint-varint value front back =
    decode_from-groups 4 (value % 2 ^ 32) 1 0 front back (word-Fits value)
    ∙ ap (λ n. Result.ok (n, length front + length (groups 5 (value % 2 ^ 32)))) (omega arith)
