-- ===== src/Gateway/Transaction/Answer.antt =====
-- app/engine/modbus_gateway.py, `_transaction`: which answers a master can get.
use ser2net.Common.{
  ℕ, ◌≤◌, ◌<◌, ◌≡◌, ap, ◌∙◌, ◌≢◌, true, some, List, [], ◌∷◌, ◌++◌, append-nil, append_assoc, arith,
  length, get_or, All,
}
use ser2net.Common.Result.{ok}
use ser2net.Modbus.Crc.{IsByte}
use ser2net.Modbus.Pdu.{exception_pdu, gateway_target_failed}
use ser2net.Modbus.Rtu.{rtu_wrap, rtu_unwrap}
use ser2net.Modbus.Rtu.Corruption.{one_byte_detected}
use ser2net.Modbus.Rtu.RoundTrip.{rtu_unwrap-rtu_wrap}
use ser2net.Gateway.Transaction.{
  discard, Read, bytes, timed_out, read_more, read_rtu_response, Port, Bus, reply_of, transaction,
}

abbrev pub concat : List (List ℕ) → List ℕ
concat [] = []
concat (x ∷ xs) = x ++ concat xs

-- Chunks that the port gives one after the other, none of them empty, until it falls silent.
abbrev pub chunks : List (List ℕ) → List Read
chunks [] = timed_out ∷ []
chunks (c ∷ cs) = bytes c ∷ chunks cs

abbrev pub IsChunk : List ℕ → Type 0
IsChunk c = 1 ≤ length c

read_more-chunks :
    (buf : List ℕ) (cs : List (List ℕ))
    → All IsChunk cs
    → read_more buf (chunks cs) ≡ some (buf ++ concat cs)
unfolding read_more
read_more-chunks buf [] h = rw (append-nil buf)
read_more-chunks buf ([] ∷ cs) h = absurd (omega arith)
read_more-chunks buf ((b ∷ c) ∷ cs) h =
    read_more-chunks (buf ++ b ∷ c) cs h.1 ∙ rw (append_assoc buf (b ∷ c) (concat cs))

read_chunks :
    (c : List ℕ) (cs : List (List ℕ))
    → All IsChunk (c ∷ cs)
    → read_rtu_response (chunks (c ∷ cs)) ≡ some (concat (c ∷ cs))
unfolding read_rtu_response
read_chunks [] cs h = absurd (omega arith)
read_chunks (b ∷ c) cs h = read_more-chunks (b ∷ c) cs h.1

answered :
    (bus : Bus) (port : Port) (unit : ℕ) (pdu frame : List ℕ)
    → port.is_open ≡ true
    → port.write_succeeds ≡ true
    → read_rtu_response (discard port.reads) ≡ some frame
    → (transaction bus port unit pdu).1 ≡ reply_of unit pdu frame
unfolding transaction
answered bus port unit pdu frame opened written read = rw (opened, written, read)

-- On an open port that takes the request, a reply that follows the stale bytes, wraps a PDU of at
-- least one byte for the unit asked, and is cut into non-empty reads in any way, reaches the
-- master as its PDU.
pub transaction-reply :
    (bus : Bus) (port : Port) (unit : ℕ) (pdu : List ℕ) (p : ℕ) (rest : List ℕ) (c : List ℕ)
    (cs : List (List ℕ))
    → port.is_open ≡ true
    → port.write_succeeds ≡ true
    → discard port.reads ≡ chunks (c ∷ cs)
    → All IsChunk (c ∷ cs)
    → concat (c ∷ cs) ≡ rtu_wrap unit (p ∷ rest)
    → unit < 256
    → All IsByte (p ∷ rest)
    → (transaction bus port unit pdu).1 ≡ p ∷ rest
unfolding reply_of
transaction-reply bus port unit pdu p rest c cs opened written reads good whole small h =
    answered bus port unit pdu (concat (c ∷ cs)) opened written (rw reads (read_chunks c cs good))
    ∙ ap (reply_of unit pdu) whole
    ∙ rw (rtu_unwrap-rtu_wrap unit p rest h, reply_of) (ground arith)

-- On an open port that takes the request, when the bytes read for the reply are a frame that
-- `rtu_unwrap` accepts with one byte changed, the master gets the exception for a target that
-- does not respond.
pub transaction-corrupted :
    (bus : Bus) (port : Port) (unit : ℕ) (pdu front back : List ℕ) (a b : ℕ) {r : ℕ × List ℕ}
    → port.is_open ≡ true
    → port.write_succeeds ≡ true
    → read_rtu_response (discard port.reads) ≡ some (front ++ b ∷ back)
    → All IsByte front
    → All IsByte back
    → IsByte a
    → IsByte b
    → a ≢ b
    → rtu_unwrap (front ++ a ∷ back) ≡ ok r
    → (transaction bus port unit pdu).1 ≡ exception_pdu (get_or pdu 0 0) gateway_target_failed
unfolding reply_of
transaction-corrupted bus port unit pdu front back a b opened written read hf hk ha hb ne good =
    answered bus port unit pdu (front ++ b ∷ back) opened written read
    ∙ rw (one_byte_detected front back a b hf hk ha hb ne good, reply_of)
