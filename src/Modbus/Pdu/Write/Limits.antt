-- ===== src/Modbus/Pdu/Write/Limits.antt =====
-- app/engine/modbus.py: the size, the fields and the values of the write requests.
use ser2net.Common.{
  ℕ, ◌+◌, ◌*◌, ◌/◌, ◌%◌, ◌≤◌, ◌<◌, ◌≡◌, refl, Bool, List, [], ◌∷◌, ◌++◌, arith, length, take, drop,
}
use ser2net.Common.Int.{pos}
use ser2net.Common.Result.{ok, >>=-ok, ok-injective}
use ser2net.Modbus.Tcp.{max_pdu}
use ser2net.Modbus.Pdu.{
  PyValue, int, coil_count, register_count, check_int, check_span, write_multiple_registers,
  write_multiple_coils,
}
use ser2net.Modbus.Pdu.Bits.{pack_bits, decode_bits}
use ser2net.Modbus.Pdu.Packing.{decode_bits-pack_bits, length-pack_bits}
use ser2net.Modbus.Pdu.Write.{
  coil_states, write_multiple_coils_pdu, check_registers, register_bytes,
  write_multiple_registers_pdu, multiple_header,
}

-- What an accepted address and quantity satisfy.
abbrev pub Span : PyValue → ℕ → ℕ → Type 0
Span addr a count = (addr ≡ int (pos a)) × (a < 65536) × (a + count ≤ 65536)

check_span-Span :
    (addr : PyValue) (count : ℕ) {a : ℕ} → check_span addr count ≡ ok a → Span addr a count
unfolding check_span
check_span-Span addr count h = ground arith

count_checked :
    (n lo hi : ℕ) {m : ℕ}
    → check_int (int (pos n)) lo hi coil_count ≡ ok m
    → (m ≡ n) × (lo ≤ n) × (n ≤ hi)
unfolding check_int
count_checked n lo hi h = ground arith

-- What a write of several coils contains: the checked span, and bytes that decode to the states.
pub record CoilWrite (addr : PyValue) (values : List PyValue) (pdu : List ℕ) : Type 0 where
  pub states : List Bool
  pub start : ℕ
  pub checked : coil_states values ≡ ok states
  pub span : Span addr start (length states)
  pub quantity : (1 ≤ length states) × (length states ≤ 1968)
  pub header :
      take 6 pdu ≡ multiple_header write_multiple_coils start (length states) (length (drop 6 pdu))
  pub content : decode_bits (drop 6 pdu) (int (pos (length states))) ≡ ok states
  pub size : length pdu ≤ max_pdu

coil_write :
    (addr : PyValue) (values : List PyValue) (states : List Bool) (count a : ℕ) {pdu : List ℕ}
    → coil_states values ≡ ok states
    → check_int (int (pos (length states))) 1 1968 coil_count ≡ ok count
    → check_span addr count ≡ ok a
    → multiple_header write_multiple_coils a count (length (pack_bits states)) ++ pack_bits states
      ≡ pdu
    → CoilWrite addr values pdu
coil_write addr values states count a es ec ea ep =
    let (same, lo, hi) = count_checked (length states) 1 1968 ec in
    let span = check_span-Span addr (length states) (rw same at ea) in
    let made = rw same at ep in
    rw (← made) (record {
      states = states;
      start = a;
      checked = es;
      span = span;
      quantity = (lo, hi);
      header = refl;
      content = decode_bits-pack_bits states;
      size = omega (arith, length-pack_bits states);
    })

-- A built write of several coils names a span inside the address space, fits a PDU, and its data
-- bytes decode to the states that the caller gave.
pub write_multiple_coils_pdu-CoilWrite :
    (addr : PyValue) (values : List PyValue) (pdu : List ℕ)
    → write_multiple_coils_pdu addr values ≡ ok pdu
    → CoilWrite addr values pdu
unfolding write_multiple_coils_pdu
write_multiple_coils_pdu-CoilWrite addr values pdu h =
    let (states, es, h1) = >>=-ok (coil_states values) _ h in
    let (count, ec, h2) = >>=-ok (check_int (int (pos (length states))) 1 1968 coil_count) _ h1 in
    let (a, ea, h3) = >>=-ok (check_span addr count) _ h2 in
    coil_write addr values states count a es ec ea (ok-injective h3)

-- The big-endian words of a byte string.
abbrev pub words : List ℕ → List ℕ
words [] = []
words (hi ∷ []) = []
words (hi ∷ lo ∷ rest) = (hi * 256 + lo) ∷ words rest

words-register_bytes : (regs : List ℕ) → words (register_bytes regs) ≡ regs
unfolding register_bytes
words-register_bytes [] = refl
words-register_bytes (r ∷ rest) =
    let e : r / 256 * 256 + r % 256 ≡ r = omega arith in rw (e, words-register_bytes rest)

length-register_bytes : (regs : List ℕ) → length (register_bytes regs) ≡ 2 * length regs
unfolding register_bytes
length-register_bytes [] = refl
length-register_bytes (r ∷ rest) = omega (arith, length-register_bytes rest)

-- What a write of several registers contains: the checked span, and the words given.
pub record RegisterWrite (addr : PyValue) (registers : List PyValue) (pdu : List ℕ) : Type 0 where
  pub regs : List ℕ
  pub start : ℕ
  pub checked : check_registers registers ≡ ok regs
  pub span : Span addr start (length regs)
  pub quantity : (1 ≤ length regs) × (length regs ≤ 123)
  pub header :
      take 6 pdu
      ≡ multiple_header write_multiple_registers start (length regs) (length (drop 6 pdu))
  pub content : words (drop 6 pdu) ≡ regs
  pub size : length pdu ≤ max_pdu

register_count_checked :
    (n lo hi : ℕ) {m : ℕ}
    → check_int (int (pos n)) lo hi register_count ≡ ok m
    → (m ≡ n) × (lo ≤ n) × (n ≤ hi)
unfolding check_int
register_count_checked n lo hi h = ground arith

register_write :
    (addr : PyValue) (registers : List PyValue) (regs : List ℕ) (count a : ℕ) {pdu : List ℕ}
    → check_registers registers ≡ ok regs
    → check_int (int (pos (length regs))) 1 123 register_count ≡ ok count
    → check_span addr count ≡ ok a
    → multiple_header write_multiple_registers a count (length (register_bytes regs))
        ++ register_bytes regs
      ≡ pdu
    → RegisterWrite addr registers pdu
register_write addr registers regs count a es ec ea ep =
    let (same, lo, hi) = register_count_checked (length regs) 1 123 ec in
    let span = check_span-Span addr (length regs) (rw same at ea) in
    let made = rw same at ep in
    rw (← made) (record {
      regs = regs;
      start = a;
      checked = es;
      span = span;
      quantity = (lo, hi);
      header = refl;
      content = words-register_bytes regs;
      size = omega (arith, length-register_bytes regs);
    })

-- A built write of several registers names a span inside the address space, fits a PDU, and its
-- data bytes are the big-endian words that the caller gave.
pub write_multiple_registers_pdu-RegisterWrite :
    (addr : PyValue) (registers : List PyValue) (pdu : List ℕ)
    → write_multiple_registers_pdu addr registers ≡ ok pdu
    → RegisterWrite addr registers pdu
unfolding write_multiple_registers_pdu
write_multiple_registers_pdu-RegisterWrite addr registers pdu h =
    let (regs, es, h1) = >>=-ok (check_registers registers) _ h in
    let (count, ec, h2) = >>=-ok (check_int (int (pos (length regs))) 1 123 register_count) _ h1 in
    let (a, ea, h3) = >>=-ok (check_span addr count) _ h2 in
    register_write addr registers regs count a es ec ea (ok-injective h3)
