-- ===== src/Modbus/Tcp.antt =====
-- app/engine/modbus.py: the Modbus/TCP envelope (MBAP header + PDU).
pub mod RoundTrip
pub mod Streaming
use ser2net.Common.{
  ℕ, ◌+◌, ◌-◌, bit_and, bit_or, not, ◌&&◌, Option, none, some, List, ◌∷◌, ltb, leb, ◌==◌,
  if◌then◌else◌, length, get_or, take, drop,
}
use ser2net.Common.Bits.{shl, shr}
use ser2net.Common.Result.{Result, ok, err}

-- The ValueErrors of `take_tcp_adu`.
pub data TcpError : Type 0 where
  not_modbus_tcp invalid_length : TcpError

pub record Frame : Type 0 where
  pub txn : ℕ
  pub unit : ℕ
  pub pdu : List ℕ

abbrev pub mbap_len : ℕ
mbap_len = 7

abbrev pub max_pdu : ℕ
max_pdu = 253

unfoldable pub build_tcp_adu : ℕ → ℕ → List ℕ → List ℕ
build_tcp_adu txn unit pdu =
    let size = length pdu + 1 in
    bit_and (shr txn 8) 0xFF
    ∷ bit_and txn 0xFF
    ∷ 0
    ∷ 0
    ∷ bit_and (shr size 8) 0xFF
    ∷ bit_and size 0xFF
    ∷ bit_and unit 0xFF
    ∷ pdu

-- `(buf[i] << 8) | buf[i + 1]`; the header is buffered, so the default is not read.
abbrev pub word_at : List ℕ → ℕ → ℕ
word_at buf i = bit_or (shl (get_or buf i 0) 8) (get_or buf (i + 1) 0)

-- The frame with the buffer after it; the buffer is unchanged when no frame is complete.
unfoldable pub take_tcp_adu : List ℕ → Result TcpError (Option Frame × List ℕ)
take_tcp_adu buf =
    let proto = word_at buf 2 in
    let size = word_at buf 4 in
    let total = mbap_len + (size - 1) in
    if ltb (length buf) mbap_len
    then ok (none, buf)
    else if not (proto == 0)
    then err not_modbus_tcp
    else if not (leb 1 size && leb size (max_pdu + 1))
    then err invalid_length
    else if ltb (length buf) total
    then ok (none, buf)
    else ok (
      some (record {
        txn = word_at buf 0;
        unit = get_or buf 6 0;
        pdu = drop mbap_len (take total buf);
      }),
      drop total buf,
    )
