-- ===== src/Sparkplug/Wire/Varint.antt =====
-- app/engine/sparkplug.py: `_read_varint` after `_varint`.
use ser2net.Common.{
  ℕ, zero, suc, ◌+◌, ◌*◌, ◌/◌, ◌%◌, ◌^◌, ◌≤◌, ◌<◌, bit_and, bit_or, ◌≡◌, refl, ap, ◌∙◌, inl, inr,
  List, [], ◌∷◌, ◌++◌, arith, ltb, leb, Bool-cases, leb→le,
}
use native.Mathlib.Nat.{two-pow-succ, mul-le-mul_right}
use ser2net.Common.Bits.{shl, shr, bit_and_mask, bit_or_join, bit_or_join_low}
use ser2net.Common.Result.{ok}
use ser2net.Sparkplug.Wire.{u64_max, varint_from, varint, read_from, read_varint}

-- A byte with the continuation bit, and its seven bits of content.
continued : (y : ℕ) → y < 128 → (bit_or 0x80 y ≡ 128 + y) × (bit_and (128 + y) 0x7F ≡ y)
continued y h = (omega (arith, bit_or_join 7 1 y h), omega (arith, bit_and_mask 7 (128 + y)))

-- 2^(shift + 7)
seven_more : (shift : ℕ) → 2 ^ (shift + 7) ≡ 128 * 2 ^ shift
seven_more shift =
    let e : shift + 7 ≡ suc (suc (suc (suc (suc (suc (suc shift)))))) = omega arith in
    rw e (
      omega (
        arith,
        two-pow-succ shift,
        two-pow-succ (suc shift),
        two-pow-succ (suc (suc shift)),
        two-pow-succ (suc (suc (suc shift))),
        two-pow-succ (suc (suc (suc (suc shift)))),
        two-pow-succ (suc (suc (suc (suc (suc shift))))),
        two-pow-succ (suc (suc (suc (suc (suc (suc shift)))))),
      ))

-- Seven bits more of the value.
next_value :
    (shift value v : ℕ)
    → value < 2 ^ shift
    → let value' = bit_or value (shl (v % 128) shift) in
      (value' < 2 ^ (shift + 7)) × (value' + v / 128 * 2 ^ (shift + 7) ≡ value + v * 2 ^ shift)
next_value shift value v h =
    let joined = bit_or_join_low shift (v % 128) value h in
    let small : v % 128 * 2 ^ shift ≤ 127 * 2 ^ shift =
      mul-le-mul_right (2 ^ shift) (omega arith) in
    let split : v * 2 ^ shift ≡ (v / 128 * 128 + v % 128) * 2 ^ shift =
      ap (λ (t : ℕ). t * 2 ^ shift) (omega arith) in
    let scaled : v / 128 * 2 ^ (shift + 7) ≡ v / 128 * (128 * 2 ^ shift) =
      ap (λ (t : ℕ). v / 128 * t) (seven_more shift) in
    (omega (arith, seven_more shift), omega arith)

low_bits : (v : ℕ) → bit_and v 0x7F ≡ v % 128
low_bits v = bit_and_mask 7 v

-- One byte with more to come, and the last byte.
read_more :
    (rounds shift value v : ℕ) (rest : List ℕ)
    → read_from (suc rounds) shift value (bit_or 0x80 (bit_and v 0x7F) ∷ rest)
      ≡ read_from rounds (shift + 7) (bit_or value (shl (v % 128) shift)) rest
unfolding read_from
read_more rounds shift value v rest =
    let (high, low) = continued (v % 128) (omega arith) in rw (low_bits v, high, low) (ground arith)

read_last :
    (rounds shift value v : ℕ) (rest : List ℕ)
    → v < 128
    → value < 2 ^ shift
    → read_from (suc rounds) shift value (v ∷ rest) ≡ ok ((value + v * 2 ^ shift) % 2 ^ 64, rest)
unfolding read_from
read_last rounds shift value v rest h small = ground (
  arith,
  low_bits v,
  bit_or_join_low shift v value small,
  bit_and_mask 64 (v * 2 ^ shift + value),
)

below : (fuel v : ℕ) → v < 2 ^ (7 * (suc fuel + 1)) → v / 128 < 2 ^ (7 * (fuel + 1))
below fuel v h =
    let e : 7 * (suc fuel + 1) ≡ 7 * (fuel + 1) + 7 = omega arith in
    let bound : v < 2 ^ (7 * (fuel + 1) + 7) = rw (← e) h in
    omega (arith, bound, seven_more (7 * (fuel + 1)))

-- Reading in the middle of a varint of at most so many bytes.
read_from-varint_from :
    (fuel rounds shift value v : ℕ) (rest : List ℕ)
    → fuel < rounds
    → v < 2 ^ (7 * (fuel + 1))
    → value < 2 ^ shift
    → read_from rounds shift value (varint_from fuel v ++ rest)
      ≡ ok ((value + v * 2 ^ shift) % 2 ^ 64, rest)
unfolding varint_from
read_from-varint_from fuel zero shift value v rest more small h = absurd (omega arith)
read_from-varint_from zero (suc rounds) shift value v rest more small h =
    read_last rounds shift value v rest small h
read_from-varint_from (suc fuel) (suc rounds) shift value v rest more small h =
    let (bound, total) = next_value shift value v h in
    let size : v / 128 < 2 ^ (7 * (fuel + 1)) = below fuel v small in
    let ih =
      read_from-varint_from fuel rounds (shift + 7) (bit_or value (shl (v % 128) shift)) (v / 128)
        rest (omega arith) size bound in
    elim (Bool-cases (ltb 0x7F v)) [
      | inl long ↦
          rw long
            (read_more rounds shift value v (varint_from fuel (shr v 7) ++ rest) ∙ ih ∙ rw total)
      | inr short ↦ rw short (read_last rounds shift value v rest (ground arith) h)
    ]

varint-eq :
    (v : ℕ) {bytes : List ℕ} → varint v ≡ ok bytes → (v ≤ u64_max) × (bytes ≡ varint_from 9 v)
unfolding varint
varint-eq v h = elim (Bool-cases (leb v u64_max)) [
  | inl fits ↦ (leb→le v u64_max fits, ground arith)
  | inr over ↦ absurd (ground arith)
]

-- A value that `_varint` writes is read back by `_read_varint`, with the bytes that follow it left.
pub read_varint-varint :
    (v : ℕ) (bytes rest : List ℕ) → varint v ≡ ok bytes → read_varint (bytes ++ rest) ≡ ok (v, rest)
unfolding read_varint
read_varint-varint v bytes rest h =
    let (fits, made) = varint-eq v h in
    rw made (
      read_from-varint_from 9 10 0 0 v rest (omega arith) (omega arith) (omega arith)
      ∙ ap (λ (n : ℕ). ok (n, rest)) (omega arith))

-- A written varint has at least one byte.
pub varint-cons :
    (v : ℕ) (bytes : List ℕ) → varint v ≡ ok bytes → (b : ℕ) × (more : List ℕ) × (bytes ≡ b ∷ more)
varint-cons v bytes h =
    let (fits, made) = varint-eq v h in
    let (b, more, shape) = first_byte 9 v in (b, more, made ∙ shape)
  where
    first_byte : (fuel v : ℕ) → (b : ℕ) × (more : List ℕ) × (varint_from fuel v ≡ b ∷ more)
    first_byte zero v = (v, [], unfold varint_from in refl)
    first_byte (suc fuel) v = elim (Bool-cases (ltb 0x7F v)) [
      | inl long ↦ (
        bit_or 0x80 (bit_and v 0x7F),
        varint_from fuel (shr v 7),
        unfold varint_from in rw long refl,
      )
      | inr short ↦ (v, [], unfold varint_from in rw short refl)
    ]
