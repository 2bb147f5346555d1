-- ===== src/Gateway/Points/ReadBack.antt =====
-- app/engine/modbus_gateway.py, `_read_point`: the value of a register point.
use ser2net.Common.{
  ℕ, ◌<◌, bit_and, bit_or, ◌≡◌, refl, sym, ap, ◌∙◌, true, false, not, List, [], ◌∷◌, arith, ◌==◌,
  length, take,
}
use ser2net.Common.Result.{ok, ok-injective}
use ser2net.Common.Bits.Table.{holds_below, holds_below-at}
use ser2net.Common.Int.{ℤ, in_range}
use ser2net.Modbus.Pdu.{response_data}
use ser2net.Modbus.Pdu.Write.{register_bytes}
use ser2net.Modbus.Value.{Floats, whole, is_scaled, int_range, encode_value}
use ser2net.Modbus.Value.RoundTrip.{is_int, decode_value-encode_value}
use ser2net.Gateway.Points.{Point, number, is_bit_point, read_reply}

-- A reply to a read: the function, the number of bytes, and the bytes.
abbrev pub reply_with : ℕ → List ℕ → List ℕ
reply_with fn content = fn ∷ length content ∷ content

-- The exception code of a function below 0x80 is another function code.
exception_table : holds_below 128 (λ f. not (f == bit_and (bit_or f 0x80) 0xFF)) ≡ true
unfolding holds_below
exception_table = refl

exception_code : (fn : ℕ) → fn < 128 → (fn == bit_and (bit_or fn 0x80) 0xFF) ≡ false
exception_code fn small = ground (
  arith,
  holds_below-at 128 (λ f. not (f == bit_and (bit_or f 0x80) 0xFF)) fn exception_table small,
)

take_whole : (xs : List ℕ) → take (length xs) xs ≡ xs
take_whole [] = refl
take_whole (x ∷ xs) = ap (◌∷◌ x) (take_whole xs)

response_data_lem :
    (fn : ℕ) (content : List ℕ) → fn < 128 → response_data (reply_with fn content) fn ≡ ok content
unfolding response_data
response_data_lem fn content small = ground (arith, exception_code fn small, take_whole content)

-- A register point whose slave replies with the words that an integer was encoded to reads that
-- integer, for an integer in the range of the point's integer dtype and no scale.
pub read_reply-encoded :
    (fl : Floats) (p : Point fl) (v : ℤ) (regs : List ℕ)
    → is_bit_point fl p ≡ false
    → p.fn < 128
    → is_int p.dtype ≡ true
    → is_scaled fl p.scale ≡ false
    → in_range (int_range p.dtype).0 v (int_range p.dtype).1 ≡ true
    → encode_value fl (whole v) p.dtype p.scale ≡ ok regs
    → read_reply fl p (reply_with p.fn (register_bytes regs)) ≡ ok (number (whole v))
unfolding read_reply
read_reply-encoded fl p v regs bits small kind plain fits encoded =
    let (words, made, decoded) = decode_value-encode_value fl v p.dtype p.scale kind plain fits in
    let same : words ≡ regs = ok-injective (sym made ∙ encoded) in
    rw (bits, response_data_lem p.fn (register_bytes regs) small, ← same, decoded)
