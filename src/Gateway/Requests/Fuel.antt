-- ===== src/Gateway/Requests/Fuel.antt =====
-- app/engine/modbus_gateway.py, `_on_client`: the rounds of the inner loop.
use ser2net.Common.{
  ℕ, zero, suc, ◌≤◌, ◌≡◌, refl, sym, ap, ◌∙◌, Option, none, some, List, [], ◌∷◌, arith, length,
}
use ser2net.Common.Result.{Result, ok, err}
use ser2net.Modbus.Tcp.{Frame, TcpError, take_tcp_adu}
use ser2net.Modbus.Tcp.Streaming.{take_frame_shrinks}
use ser2net.Gateway.Requests.{open_with, closed, before, drain}

-- What one call of `take_tcp_adu` can answer.
pub data Taken (buf : List ℕ) : Type 0 where
  failed : (e : TcpError) → take_tcp_adu buf ≡ err e → Taken buf
  waits : (rest : List ℕ) → take_tcp_adu buf ≡ ok (none, rest) → Taken buf
  takes : (f : Frame) (rest : List ℕ) → take_tcp_adu buf ≡ ok (some f, rest) → Taken buf

Taken-cases :
    (buf : List ℕ) (r : Result TcpError (Option Frame × List ℕ)) → take_tcp_adu buf ≡ r → Taken buf
Taken-cases buf (err e) h = failed e h
Taken-cases buf (ok (none, rest)) h = waits rest h
Taken-cases buf (ok (some f, rest)) h = takes f rest h

pub taken : (buf : List ℕ) → Taken buf
taken buf = Taken-cases buf (take_tcp_adu buf) refl

pub drain_failed :
    (fuel : ℕ) (buf : List ℕ) (e : TcpError)
    → take_tcp_adu buf ≡ err e
    → drain (suc fuel) buf ≡ record { frames = []; conn = closed e }
unfolding drain
drain_failed fuel buf e h = rw (h, drain)

pub drain_waits :
    (fuel : ℕ) (buf rest : List ℕ)
    → take_tcp_adu buf ≡ ok (none, rest)
    → drain (suc fuel) buf ≡ record { frames = []; conn = open_with rest }
unfolding drain
drain_waits fuel buf rest h = rw (h, drain)

pub drain_takes :
    (fuel : ℕ) (buf rest : List ℕ) (f : Frame)
    → take_tcp_adu buf ≡ ok (some f, rest)
    → drain (suc fuel) buf ≡ before f (drain fuel rest)
unfolding drain
drain_takes fuel buf rest f h = rw (h, drain)

-- The empty buffer waits for more.
take_empty : take_tcp_adu [] ≡ ok (none, [])
unfolding take_tcp_adu
take_empty = refl

pub drain_empty : (fuel : ℕ) → drain fuel [] ≡ record { frames = []; conn = open_with [] }
drain_empty zero = unfold drain in refl
drain_empty (suc fuel) = drain_waits fuel [] [] take_empty

-- With as many rounds as the buffer has bytes, more rounds change nothing.
pub drain_enough :
    (n m : ℕ) (buf : List ℕ) → length buf ≤ n → length buf ≤ m → drain n buf ≡ drain m buf
drain_enough zero m [] hn hm = drain_empty 0 ∙ sym (drain_empty m)
drain_enough zero m (b ∷ bs) hn hm = absurd (omega arith)
drain_enough (suc n) zero [] hn hm = drain_empty (suc n) ∙ sym (drain_empty 0)
drain_enough (suc n) zero (b ∷ bs) hn hm = absurd (omega arith)
drain_enough (suc n) (suc m) buf hn hm = elim (taken buf) [
  | failed e h ↦ drain_failed n buf e h ∙ sym (drain_failed m buf e h)
  | waits rest h ↦ drain_waits n buf rest h ∙ sym (drain_waits m buf rest h)
  | takes f rest h ↦
      let small = take_frame_shrinks buf rest f h in
      drain_takes n buf rest f h
      ∙ ap (before f) (drain_enough n m rest (omega arith) (omega arith))
      ∙ sym (drain_takes m buf rest f h)
]
