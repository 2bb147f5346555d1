-- ===== src/Modbus/Tcp/Streaming.antt =====
-- app/engine/modbus.py: `take_tcp_adu` on a growing buffer.
use ser2net.Common.{
  ℕ, zero, suc, ◌+◌, ◌-◌, ◌≤◌, ◌<◌, ◌≡◌, refl, none, some, List, [], ◌∷◌, ◌++◌, arith, length,
  get_or, length-append, length-drop, take-append_le, drop-append_le,
}
use ser2net.Common.Result.{ok, err}
use ser2net.Modbus.Tcp.{Frame, TcpError, word_at, mbap_len, take_tcp_adu}

get_or-append : (xs ys : List ℕ) (i d : ℕ) → i < length xs → get_or (xs ++ ys) i d ≡ get_or xs i d
get_or-append [] ys i d h = elim h [ ]
get_or-append (x ∷ xs) ys zero d h = refl
get_or-append (x ∷ xs) ys (suc i) d h = get_or-append xs ys i d (omega arith)

word_at-append : (xs ys : List ℕ) (i : ℕ) → i + 1 < length xs → word_at (xs ++ ys) i ≡ word_at xs i
word_at-append xs ys i h =
    rw (get_or-append xs ys i 0 (omega arith), get_or-append xs ys (i + 1) 0 h)

module _ (xs ys : List ℕ) where
  -- A complete frame is taken from a longer buffer just the same.
  pub take_frame-append :
      (f : Frame) (rest : List ℕ)
      → take_tcp_adu xs ≡ ok (some f, rest)
      → take_tcp_adu (xs ++ ys) ≡ ok (some f, rest ++ ys)
  unfolding take_tcp_adu
  take_frame-append f rest h = ground (
    arith,
    length-append xs ys,
    word_at-append xs ys 0,
    word_at-append xs ys 2,
    word_at-append xs ys 4,
    get_or-append xs ys 6 0,
    take-append_le (mbap_len + (word_at xs 4 - 1)) xs ys,
    drop-append_le (mbap_len + (word_at xs 4 - 1)) xs ys,
  )

  -- A refused header stays refused.
  pub take_error-append : (e : TcpError) → take_tcp_adu xs ≡ err e → take_tcp_adu (xs ++ ys) ≡ err e
  unfolding take_tcp_adu
  take_error-append e h =
      ground (arith, length-append xs ys, word_at-append xs ys 2, word_at-append xs ys 4)

-- Without a complete frame the buffer is left as it is.
pub take_none_keeps : (xs rest : List ℕ) → take_tcp_adu xs ≡ ok (none, rest) → rest ≡ xs
unfolding take_tcp_adu
take_none_keeps xs rest h = ground arith

-- A frame takes at least its header off the buffer.
pub take_frame_shrinks :
    (xs rest : List ℕ) (f : Frame)
    → take_tcp_adu xs ≡ ok (some f, rest)
    → length rest + 7 ≤ length xs
unfolding take_tcp_adu
take_frame_shrinks xs rest f h = ground (arith, length-drop (mbap_len + (word_at xs 4 - 1)) xs)
