-- ===== src/Modbus/Pdu/Packing.antt =====
-- app/engine/modbus.py: `decode_bits` on packed coil states.
use ser2net.Common.{
  ℕ, zero, suc, ◌+◌, ◌-◌, ◌*◌, ◌/◌, ◌%◌, ◌≤◌, ◌<◌, bit_and, bit_or, ◌≡◌, refl, ap, ◌∙◌, Bool, true,
  false, ◌&&◌, ◌||◌, List, [], ◌∷◌, arith, ltb, leb, ◌==◌, if◌then◌else◌, length, get_or, replicate,
  All,
}
use ser2net.Common.Bits.{shl, shr}
use ser2net.Common.Bits.Table.{holds_below, holds_below-at}
use ser2net.Modbus.Crc.{IsByte}
use ser2net.Common.Result.{ok}
use ser2net.Common.Int.{pos}
use ser2net.Modbus.Pdu.{int}
use ser2net.Modbus.Pdu.Bits.{bit_at, bits_from, decode_bits, or_at, pack_from, pack_bits}

-- Bit m of a byte in which bit k has been set. All bytes, k and m below 8, in one number.
abbrev set_bit_test : ℕ → Bool
set_bit_test x =
    let b = x / 64 in
    let k = x / 8 % 8 in
    let m = x % 8 in
    ltb (bit_or b (shl 1 k)) 256
    && (bit_and (shr (bit_or b (shl 1 k)) m) 1 == (if k == m then 1 else bit_and (shr b m) 1))

set_bit_table : holds_below 16384 set_bit_test ≡ true
unfolding holds_below
set_bit_table = refl

set_bit :
    (b k m : ℕ)
    → IsByte b
    → k < 8
    → m < 8
    → (bit_or b (shl 1 k) < 256)
      × (bit_and (shr (bit_or b (shl 1 k)) m) 1 ≡ (if k == m then 1 else bit_and (shr b m) 1))
set_bit b k m hb hk hm =
    let x : ℕ = b * 64 + k * 8 + m in
    let eb : x / 64 ≡ b = omega arith in
    let ek : x / 8 % 8 ≡ k = omega arith in
    let em : x % 8 ≡ m = omega arith in
    let hit : set_bit_test x ≡ true =
      holds_below-at 16384 set_bit_test x set_bit_table (omega arith) in
    ground (arith, rw (eb, ek, em) at hit)

-- Setting bit `k` of a list of bytes turns that bit on and leaves the others.
or_at-IsByte :
    (bytes : List ℕ) (k m : ℕ) → m < 8 → All IsByte bytes → All IsByte (or_at bytes k (shl 1 m))
unfolding or_at
or_at-IsByte [] k m hm h = tt
or_at-IsByte (b ∷ bs) zero m hm h = ((set_bit b m 0 h.0 hm (omega arith)).0, h.1)
or_at-IsByte (b ∷ bs) (suc k) m hm h = (h.0, or_at-IsByte bs k m hm h.1)

length-or_at : (bytes : List ℕ) (k bit : ℕ) → length (or_at bytes k bit) ≡ length bytes
unfolding or_at
length-or_at [] k bit = refl
length-or_at (b ∷ bs) zero bit = refl
length-or_at (b ∷ bs) (suc k) bit = ap suc (length-or_at bs k bit)

byte_bit-or_at :
    (bytes : List ℕ) (k j m n : ℕ)
    → m < 8
    → n < 8
    → k < length bytes
    → All IsByte bytes
    → bit_and (shr (get_or (or_at bytes k (shl 1 m)) j 0) n) 1
      ≡ (if k == j && m == n then 1 else bit_and (shr (get_or bytes j 0) n) 1)
unfolding or_at
byte_bit-or_at [] k j m n hm hn hk h = elim hk [ ]
byte_bit-or_at (b ∷ bs) zero zero m n hm hn hk h = (set_bit b m n h.0 hm hn).1
byte_bit-or_at (b ∷ bs) zero (suc j) m n hm hn hk h = ground arith
byte_bit-or_at (b ∷ bs) (suc k) zero m n hm hn hk h = ground arith
byte_bit-or_at (b ∷ bs) (suc k) (suc j) m n hm hn hk h =
    ground (arith, byte_bit-or_at bs k j m n hm hn (omega arith) h.1)

bit_at-or_at :
    (bytes : List ℕ) (i j : ℕ)
    → i / 8 < length bytes
    → All IsByte bytes
    → bit_at (or_at bytes (i / 8) (shl 1 (i % 8))) j ≡ (if i == j then true else bit_at bytes j)
bit_at-or_at bytes i j hi h =
    ground
      (arith, byte_bit-or_at bytes (i / 8) (j / 8) (i % 8) (j % 8) (omega arith) (omega arith) hi h)

get_or-cons :
    (on : Bool) (states : List Bool) (n : ℕ)
    → get_or (on ∷ states) n false ≡ (if n == 0 then on else get_or states (n - 1) false)
get_or-cons on states zero = refl
get_or-cons on states (suc n) = let e : suc n - 1 ≡ n = omega arith in rw e (ground arith)

bit_at-pack_from :
    (i : ℕ) (states : List Bool) (packed : List ℕ) (j : ℕ)
    → i + length states ≤ 8 * length packed
    → All IsByte packed
    → bit_at (pack_from i states packed) j
      ≡ (leb i j && get_or states (j - i) false) || bit_at packed j
unfolding pack_from
bit_at-pack_from i [] packed j fits h = ground arith
bit_at-pack_from i (true ∷ states) packed j fits h = ground (
  arith,
  get_or-cons true states (j - i),
  bit_at-or_at packed i j (omega arith) h,
  length-or_at packed (i / 8) (shl 1 (i % 8)),
  bit_at-pack_from (i + 1) states (or_at packed (i / 8) (shl 1 (i % 8))) j
      (omega (arith, length-or_at packed (i / 8) (shl 1 (i % 8))))
      (or_at-IsByte packed (i / 8) (i % 8) (omega arith) h),
)
bit_at-pack_from i (false ∷ states) packed j fits h = ground (
  arith,
  get_or-cons false states (j - i),
  bit_at-pack_from (i + 1) states packed j (omega arith) h,
)

abbrev zeros : ℕ → List ℕ
zeros m = replicate m 0

get_or-replicate : (m j : ℕ) → get_or (zeros m) j 0 ≡ 0
get_or-replicate zero j = refl
get_or-replicate (suc m) zero = refl
get_or-replicate (suc m) (suc j) = get_or-replicate m j

replicate-IsByte : (m : ℕ) → All IsByte (zeros m)
replicate-IsByte zero = tt
replicate-IsByte (suc m) = (omega arith, replicate-IsByte m)

bit_at-replicate : (m j : ℕ) → bit_at (zeros m) j ≡ false
bit_at-replicate m j =
    rw (get_or-replicate m (j / 8)) (let z : shr 0 (j % 8) ≡ 0 = grind arith in rw z)

length-pack_from :
    (i : ℕ) (states : List Bool) (packed : List ℕ)
    → length (pack_from i states packed) ≡ length packed
unfolding pack_from
length-pack_from i [] packed = refl
length-pack_from i (true ∷ states) packed =
    length-pack_from (i + 1) states _ ∙ length-or_at packed (i / 8) (shl 1 (i % 8))
length-pack_from i (false ∷ states) packed = length-pack_from (i + 1) states packed

length-replicate : (m : ℕ) → length (zeros m) ≡ m
length-replicate zero = refl
length-replicate (suc m) = ap suc (length-replicate m)

bit_at-pack_bits :
    (states : List Bool) (j : ℕ) → bit_at (pack_bits states) j ≡ get_or states j false
unfolding pack_bits
bit_at-pack_bits states j = ground (
  arith,
  bit_at-pack_from 0 states (zeros bytes) j (omega (arith, length-replicate bytes))
      (replicate-IsByte bytes),
  bit_at-replicate bytes j,
)
  where
    bytes : ℕ
    bytes = (length states + 7) / 8

pub length-pack_bits : (states : List Bool) → length (pack_bits states) ≡ (length states + 7) / 8
unfolding pack_bits
length-pack_bits states =
    length-pack_from 0 states (zeros ((length states + 7) / 8))
    ∙ length-replicate ((length states + 7) / 8)

-- Reading bits one by one gives the list that has those bits.
bits_from-eq :
    (states : List Bool) (i : ℕ) (bytes : List ℕ)
    → ((j : ℕ) → bit_at bytes (i + j) ≡ get_or states j false)
    → bits_from (length states) i bytes ≡ states
unfolding bits_from
bits_from-eq [] i bytes h = refl
bits_from-eq (on ∷ states) i bytes h = ground (
  arith,
  h 0,
  bits_from-eq states (i + 1) bytes
      (λ j. let e : i + 1 + j ≡ i + suc j = omega arith in rw e (h (suc j))),
)

-- Coil states packed for a write, eight to a byte, read back as the same states.
pub decode_bits-pack_bits :
    (states : List Bool) → decode_bits (pack_bits states) (int (pos (length states))) ≡ ok states
unfolding decode_bits pack_bits
decode_bits-pack_bits states = ground (
  arith,
  length-pack_from 0 states (zeros ((length states + 7) / 8)),
  length-replicate ((length states + 7) / 8),
  bits_from-eq states 0 (pack_bits states)
      (λ j. let e : 0 + j ≡ j = omega arith in rw e (bit_at-pack_bits states j)),
)
