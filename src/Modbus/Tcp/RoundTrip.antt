-- ===== src/Modbus/Tcp/RoundTrip.antt =====
-- app/engine/modbus.py: `take_tcp_adu` after `build_tcp_adu`.
use ser2net.Common.{
  ℕ, suc, ◌+◌, ◌-◌, ◌%◌, ◌≤◌, bit_and, bit_or, ◌≡◌, refl, ◌∙◌, some, List, ◌∷◌, ◌++◌, arith, length,
  take, drop, length-append, take-append_self, drop-append_self,
}
use ser2net.Common.Bits.{shl, shr, bit_and_mask, bit_or_join}
use ser2net.Common.Result.{ok}
use ser2net.Modbus.Tcp.{build_tcp_adu, take_tcp_adu}

-- The two bytes of a 16-bit field.
word_join : (w : ℕ) → bit_or (shl (bit_and (shr w 8) 0xFF) 8) (bit_and w 0xFF) ≡ w % 65536
word_join w = ground (
  arith,
  bit_and_mask 8 w,
  bit_and_mask 8 (shr w 8),
  bit_or_join 8 (bit_and (shr w 8) 0xFF) (bit_and w 0xFF),
)

header_size : (n : ℕ) → 7 + n ≡ suc (suc (suc (suc (suc (suc (suc n))))))
header_size n = omega arith

-- A header and a body that holds all of the PDU that the header announces.
take_complete :
    (t1 t0 p1 p0 l1 l0 unit : ℕ) (body : List ℕ) (n : ℕ)
    → bit_or (shl p1 8) p0 ≡ 0
    → bit_or (shl l1 8) l0 ≡ n + 1
    → n ≤ 253
    → n ≤ length body
    → take_tcp_adu (t1 ∷ t0 ∷ p1 ∷ p0 ∷ l1 ∷ l0 ∷ unit ∷ body)
      ≡ ok (
        some (record { txn = bit_or (shl t1 8) t0; unit = unit; pdu = take n body }),
        drop n body,
      )
unfolding take_tcp_adu
take_complete t1 t0 p1 p0 l1 l0 unit body n proto size fits whole =
    let count : n + 1 - 1 ≡ n = omega arith in rw (size, count, header_size n, proto) (ground arith)

-- An ADU built for a PDU of at most 253 bytes is taken whole from the front of the buffer, with
-- the low bits of its ids, whatever follows it.
pub take_tcp_adu-build_tcp_adu :
    (txn unit : ℕ) (pdu rest : List ℕ)
    → length pdu ≤ 253
    → take_tcp_adu (build_tcp_adu txn unit pdu ++ rest)
      ≡ ok (some (record { txn = txn % 65536; unit = unit % 256; pdu = pdu }), rest)
unfolding build_tcp_adu
take_tcp_adu-build_tcp_adu txn unit pdu rest fits =
    take_complete _ _ 0 0 _ _ _ (pdu ++ rest) (length pdu) refl size fits
      (omega (arith, length-append pdu rest))
    ∙ rw (word_join txn, bit_and_mask 8 unit, take-append_self pdu rest, drop-append_self pdu rest)
  where
    size :
        bit_or (shl (bit_and (shr (length pdu + 1) 8) 0xFF) 8) (bit_and (length pdu + 1) 0xFF)
        ≡ length pdu + 1
    size = omega (arith, word_join (length pdu + 1))
