-- ===== src/Modbus/Crc/Detect.antt =====
-- app/engine/modbus.py, `crc16`: the CRCs of messages that differ.
use ser2net.Common.{
  ℕ, zero, suc, ◌+◌, ◌*◌, ◌<◌, bit_xor, ◌≡◌, refl, sym, ap, ◌∙◌, ◌≢◌, true, ◌&&◌, List, [], ◌∷◌,
  ◌++◌, arith, ltb, ◌==◌, if◌then◌else◌, All, All-append,
}
use ser2net.Common.Bits.{bit_and_mask, bit_xor-lt, bit_xor_cancel, bit_xor_cancel_left}
use ser2net.Common.Bits.Table.{holds_below, holds_below-at}
use ser2net.Modbus.Crc.{IsByte, crc_bit, crc_bits, crc_bytes, crc16}

-- A register after the shift tells which way it went by its top bit: 0xA001 sets it.
abbrev unshift : ℕ → ℕ
unshift crc = if ltb crc 0x8000 then crc * 2 else bit_xor crc 0xA001 * 2 + 1

unshift_table : holds_below 65536 (λ x. ltb (crc_bit x) 65536 && (unshift (crc_bit x) == x)) ≡ true
unfolding holds_below crc_bit
unshift_table = refl

crc_bit_inverse : (x : ℕ) → x < 65536 → (crc_bit x < 65536) × (unshift (crc_bit x) ≡ x)
crc_bit_inverse x h = ground (
  arith,
  holds_below-at 65536 (λ x. ltb (crc_bit x) 65536 && (unshift (crc_bit x) == x)) x unshift_table h,
)

crc_bit-injective : (x y : ℕ) → x < 65536 → y < 65536 → crc_bit x ≡ crc_bit y → x ≡ y
crc_bit-injective x y hx hy e =
    sym (crc_bit_inverse x hx).1 ∙ ap unshift e ∙ (crc_bit_inverse y hy).1

crc_bits-lt : (n x : ℕ) → x < 65536 → crc_bits n x < 65536
unfolding crc_bits
crc_bits-lt zero x h = h
crc_bits-lt (suc n) x h = crc_bits-lt n (crc_bit x) (crc_bit_inverse x h).0

crc_bits-injective : (n x y : ℕ) → x < 65536 → y < 65536 → crc_bits n x ≡ crc_bits n y → x ≡ y
unfolding crc_bits
crc_bits-injective zero x y hx hy e = e
crc_bits-injective (suc n) x y hx hy e =
    crc_bit-injective x y hx hy
      (crc_bits-injective n _ _ (crc_bit_inverse x hx).0 (crc_bit_inverse y hy).0 e)

xor_byte-lt : (x b : ℕ) → x < 65536 → IsByte b → bit_xor x b < 65536
xor_byte-lt x b hx hb = bit_xor-lt 16 x b hx (omega arith)

xor_byte-injective : (x y b : ℕ) → bit_xor x b ≡ bit_xor y b → x ≡ y
xor_byte-injective x y b e =
    sym (bit_xor_cancel x b) ∙ ap (λ (t : ℕ). bit_xor t b) e ∙ bit_xor_cancel y b

pub crc_bytes-lt :
    (x : ℕ) (bytes : List ℕ) → x < 65536 → All IsByte bytes → crc_bytes x bytes < 65536
unfolding crc_bytes
crc_bytes-lt x [] hx h = hx
crc_bytes-lt x (b ∷ bs) hx h =
    crc_bytes-lt (crc_bits 8 (bit_xor x b)) bs (crc_bits-lt 8 _ (xor_byte-lt x b hx h.0)) h.1

-- With the same bytes to come, different registers stay different.
crc_bytes-injective :
    (bytes : List ℕ) (x y : ℕ)
    → x < 65536
    → y < 65536
    → All IsByte bytes
    → crc_bytes x bytes ≡ crc_bytes y bytes
    → x ≡ y
unfolding crc_bytes
crc_bytes-injective [] x y hx hy h e = e
crc_bytes-injective (b ∷ bs) x y hx hy h e =
    let hx' = xor_byte-lt x b hx h.0 in
    let hy' = xor_byte-lt y b hy h.0 in
    xor_byte-injective x y b (
      crc_bits-injective 8 _ _ hx' hy'
        (crc_bytes-injective bs _ _ (crc_bits-lt 8 _ hx') (crc_bits-lt 8 _ hy') h.1 e))

crc_bytes-append :
    (x : ℕ) (front back : List ℕ) → crc_bytes x (front ++ back) ≡ crc_bytes (crc_bytes x front) back
unfolding crc_bytes
crc_bytes-append x [] back = refl
crc_bytes-append x (b ∷ bs) back = crc_bytes-append (crc_bits 8 (bit_xor x b)) bs back

start-lt : 0xFFFF < 65536
start-lt = omega arith

-- Two registers that differ by the byte at hand alone end apart.
crc_bytes_one_byte :
    (x a b : ℕ) (back : List ℕ)
    → x < 65536
    → IsByte a
    → IsByte b
    → All IsByte back
    → crc_bytes x (a ∷ back) ≡ crc_bytes x (b ∷ back)
    → a ≡ b
unfolding crc_bytes
crc_bytes_one_byte x a b back hx ha hb h e =
    let xa = xor_byte-lt x a hx ha in
    let xb = xor_byte-lt x b hx hb in
    let same : bit_xor x a ≡ bit_xor x b =
      crc_bits-injective 8 _ _ xa xb
        (crc_bytes-injective back _ _ (crc_bits-lt 8 _ xa) (crc_bits-lt 8 _ xb) h e) in
    sym (bit_xor_cancel_left x a) ∙ ap (λ (t : ℕ). bit_xor x t) same ∙ bit_xor_cancel_left x b

-- The mask of the returned value keeps the whole register.
pub crc16-register : (bytes : List ℕ) → All IsByte bytes → crc16 bytes ≡ crc_bytes 0xFFFF bytes
unfolding crc16
crc16-register bytes h =
    omega (arith, bit_and_mask 16 (crc_bytes 0xFFFF bytes), crc_bytes-lt 0xFFFF bytes start-lt h)

pub crc16-lt : (bytes : List ℕ) → All IsByte bytes → crc16 bytes < 65536
crc16-lt bytes h = rw (crc16-register bytes h) (crc_bytes-lt 0xFFFF bytes start-lt h)

-- Two byte strings that differ in exactly one byte have different CRCs.
pub crc16-ne_of_one_byte :
    (front back : List ℕ) (a b : ℕ)
    → All IsByte front
    → All IsByte back
    → IsByte a
    → IsByte b
    → a ≢ b
    → crc16 (front ++ a ∷ back) ≢ crc16 (front ++ b ∷ back)
crc16-ne_of_one_byte front back a b hf hk ha hb differ e = differ (
    crc_bytes_one_byte (crc_bytes 0xFFFF front) a b back (crc_bytes-lt 0xFFFF front start-lt hf) ha
      hb hk registers)
  where
    registers :
        crc_bytes (crc_bytes 0xFFFF front) (a ∷ back)
        ≡ crc_bytes (crc_bytes 0xFFFF front) (b ∷ back)
    registers =
        sym (crc_bytes-append 0xFFFF front (a ∷ back))
        ∙ sym (crc16-register _ (All-append IsByte front (a ∷ back) hf (ha, hk)))
        ∙ e
        ∙ crc16-register _ (All-append IsByte front (b ∷ back) hf (hb, hk))
        ∙ crc_bytes-append 0xFFFF front (b ∷ back)
