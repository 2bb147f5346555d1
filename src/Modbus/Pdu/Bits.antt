-- ===== src/Modbus/Pdu/Bits.antt =====
-- app/engine/modbus.py: bits of register bytes, least significant first.
use ser2net.Common.{
  ℕ, zero, suc, ◌+◌, ◌/◌, ◌%◌, bit_and, bit_or, Bool, not, List, [], ◌∷◌, ltb, ◌==◌, if◌then◌else◌,
  length, get_or, replicate,
}
use ser2net.Common.Bits.{shl, shr}
use ser2net.Common.Int.{pos, negsuc}
use ser2net.Common.Result.{Result, ok, err}
use ser2net.Modbus.Pdu.{PyValue, bool, int, other, PduError, bad_bit_count, not_enough_data}

-- `bool((data[i // 8] >> (i % 8)) & 1)`
abbrev pub bit_at : List ℕ → ℕ → Bool
bit_at bytes i = not (bit_and (shr (get_or bytes (i / 8) 0) (i % 8)) 1 == 0)

-- The bits i, i + 1, ... as many as the first argument says.
unfoldable pub bits_from : ℕ → ℕ → List ℕ → List Bool
bits_from zero i bytes = []
bits_from (suc n) i bytes = bit_at bytes i ∷ bits_from n (i + 1) bytes

unfoldable pub decode_count : List ℕ → ℕ → Result PduError (List Bool)
unfolding bits_from
decode_count bytes count =
    if ltb (length bytes) ((count + 7) / 8)
    then err not_enough_data
    else ok (bits_from count 0 bytes)

unfoldable pub decode_bits : List ℕ → PyValue → Result PduError (List Bool)
unfolding decode_count
decode_bits bytes (bool b) = err bad_bit_count
decode_bits bytes other = err bad_bit_count
decode_bits bytes (int (negsuc n)) = err bad_bit_count
decode_bits bytes (int (pos n)) = decode_count bytes n

-- `packed[k] |= bit`
unfoldable pub or_at : List ℕ → ℕ → ℕ → List ℕ
or_at [] k bit = []
or_at (b ∷ bs) zero bit = bit_or b bit ∷ bs
or_at (b ∷ bs) (suc k) bit = b ∷ or_at bs k bit

-- The loop over the states from index `i` on.
unfoldable pub pack_from : ℕ → List Bool → List ℕ → List ℕ
unfolding or_at
pack_from i [] packed = packed
pack_from i (on ∷ states) packed =
    pack_from (i + 1) states (if on then or_at packed (i / 8) (shl 1 (i % 8)) else packed)

unfoldable pub pack_bits : List Bool → List ℕ
unfolding pack_from
pack_bits states = pack_from 0 states (replicate ((length states + 7) / 8) 0)
