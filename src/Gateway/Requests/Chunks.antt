-- ===== src/Gateway/Requests/Chunks.antt =====
-- app/engine/modbus_gateway.py, `_on_client`: the requests of a stream that TCP cuts into
-- chunks.
use ser2net.Common.{
  ℕ, zero, suc, ◌%◌, ◌≤◌, ◌<◌, ◌≡◌, refl, sym, ap, ◌∙◌, some, List, [], ◌∷◌, ◌++◌, append-nil,
  append_assoc, arith, length, All, length-append,
}
use mathlib.Core.List.{flatten}
use ser2net.Common.Result.{ok}
use ser2net.Modbus.Tcp.{Frame, build_tcp_adu, take_tcp_adu}
use ser2net.Modbus.Tcp.Streaming.{
  take_frame_shrinks, take_frame-append, take_error-append, take_none_keeps,
}
use ser2net.Modbus.Tcp.RoundTrip.{take_tcp_adu-build_tcp_adu}
use ser2net.Gateway.Requests.{
  Conn, open_with, closed, Progress, before, drain, receive, receive_all,
}
use ser2net.Gateway.Requests.Fuel.{
  failed, waits, takes, taken, drain_failed, drain_waits, drain_takes, drain_empty, drain_enough,
}

-- Progress on one chunk, and then on the next.
abbrev pub and_then : Progress → List ℕ → Progress
and_then p ys = record {
  frames = p.frames ++ (receive p.conn ys).frames;
  conn = (receive p.conn ys).conn;
}

receive_open :
    (buf ys : List ℕ) → receive (open_with buf) ys ≡ drain (length (buf ++ ys)) (buf ++ ys)
unfolding receive
receive_open buf ys = refl

-- Both buffers at once, or the first and then the second.
drain-and_then :
    (n : ℕ) (buf ys : List ℕ)
    → length buf ≤ n
    → drain (suc (length (buf ++ ys))) (buf ++ ys) ≡ and_then (drain n buf) ys
drain-and_then zero [] ys hn =
    rw (drain_empty 0, receive_open [] ys)
      (drain_enough (suc (length ys)) (length ys) ys (omega arith) (omega arith))
drain-and_then zero (b ∷ bs) ys hn = absurd (omega arith)
drain-and_then (suc n) buf ys hn = elim (taken buf) [
  | failed e h ↦
      drain_failed (length (buf ++ ys)) (buf ++ ys) e (take_error-append buf ys e h)
      ∙ rw (drain_failed n buf e h) (unfold receive in refl)
  | waits rest h ↦
      rw (drain_waits n buf rest h, take_none_keeps buf rest h, receive_open buf ys)
        (drain_enough (suc (length (buf ++ ys))) (length (buf ++ ys)) (buf ++ ys) (omega arith)
          (omega arith))
  | takes f rest h ↦
      let small = take_frame_shrinks buf rest f h in
      drain_takes (length (buf ++ ys)) (buf ++ ys) (rest ++ ys) f
        (take_frame-append buf ys f rest h)
      ∙ ap (before f) (
          drain_enough (length (buf ++ ys)) (suc (length (rest ++ ys))) (rest ++ ys)
            (omega (arith, length-append buf ys, length-append rest ys)) (omega arith)
          ∙ drain-and_then n rest ys (omega arith))
      ∙ rw (drain_takes n buf rest f h)
]

receive-append :
    (conn : Conn) (xs ys : List ℕ) → receive conn (xs ++ ys) ≡ and_then (receive conn xs) ys
receive-append (closed e) xs ys = unfold receive in refl
receive-append (open_with buf) xs ys =
    rw (receive_open buf (xs ++ ys), receive_open buf xs, ← append_assoc buf xs ys)
      (drain_enough (length ((buf ++ xs) ++ ys)) (suc (length ((buf ++ xs) ++ ys)))
          ((buf ++ xs) ++ ys) (omega arith) (omega arith)
        ∙ drain-and_then (length (buf ++ xs)) (buf ++ xs) ys (omega arith))

abbrev pub and_all : Progress → List (List ℕ) → Progress
and_all p chunks = record {
  frames = p.frames ++ (receive_all p.conn chunks).frames;
  conn = (receive_all p.conn chunks).conn;
}

receive-and_all :
    (conn : Conn) (xs : List ℕ) (chunks : List (List ℕ))
    → and_all (receive conn xs) chunks ≡ receive conn (xs ++ flatten chunks)
unfolding receive_all flatten
receive-and_all conn xs [] = rw (append-nil xs, append-nil (receive conn xs).frames)
receive-and_all conn xs (chunk ∷ chunks) =
    regroup
    ∙ ap (λ (p : Progress). and_all p chunks) (sym (receive-append conn xs chunk))
    ∙ receive-and_all conn (xs ++ chunk) chunks
    ∙ ap (receive conn) (append_assoc xs chunk (flatten chunks))
  where
    regroup :
        and_all (receive conn xs) (chunk ∷ chunks)
        ≡ and_all (and_then (receive conn xs) chunk) chunks
    regroup =
        rw (append_assoc (receive conn xs).frames (receive (receive conn xs).conn chunk).frames)

-- The frames taken, and the state of the connection, depend on the bytes received and not on how
-- they were cut into chunks.
pub receive_all-flatten :
    (chunks : List (List ℕ))
    → receive_all (open_with []) chunks ≡ receive (open_with []) (flatten chunks)
receive_all-flatten chunks = first ∙ receive-and_all (open_with []) [] chunks
  where
    first : receive_all (open_with []) chunks ≡ and_all (receive (open_with []) []) chunks
    first = rw (receive_open [] [], drain_empty 0)

-- A request as a master sends it.
abbrev pub request : Frame → List ℕ
request f = build_tcp_adu f.txn f.unit f.pdu

abbrev pub IsRequest : Frame → Type 0
IsRequest f = (f.txn < 65536) × (f.unit < 256) × (length f.pdu ≤ 253)

unfoldable pub requests : List Frame → List ℕ
requests [] = []
requests (f ∷ fs) = request f ++ requests fs

take_request :
    (f : Frame) (rest : List ℕ) → IsRequest f → take_tcp_adu (request f ++ rest) ≡ ok (some f, rest)
take_request f rest h =
    let et : f.txn % 65536 ≡ f.txn = omega arith in
    let eu : f.unit % 256 ≡ f.unit = omega arith in
    take_tcp_adu-build_tcp_adu f.txn f.unit f.pdu rest h.2 ∙ rw (et, eu)

drain-requests :
    (fuel : ℕ) (fs : List Frame)
    → All IsRequest fs
    → length (requests fs) ≤ fuel
    → drain fuel (requests fs) ≡ record { frames = fs; conn = open_with [] }
unfolding requests
drain-requests fuel [] h enough = drain_empty fuel
drain-requests zero (f ∷ fs) h enough =
    absurd (omega (arith, take_frame_shrinks _ _ f (take_request f (requests fs) h.0)))
drain-requests (suc fuel) (f ∷ fs) h enough =
    let taking = take_request f (requests fs) h.0 in
    let small = take_frame_shrinks _ (requests fs) f taking in
    drain_takes fuel _ (requests fs) f taking
    ∙ ap (before f) (drain-requests fuel fs h.1 (omega arith))

-- The requests of a master, each with 16-bit and 8-bit ids and a PDU of at most 253 bytes, cut
-- into chunks in any way, are taken as those requests in order, and the connection stays open
-- with nothing buffered.
pub receive_all-requests :
    (fs : List Frame) (chunks : List (List ℕ))
    → All IsRequest fs
    → flatten chunks ≡ requests fs
    → receive_all (open_with []) chunks ≡ record { frames = fs; conn = open_with [] }
receive_all-requests fs chunks h e =
    receive_all-flatten chunks
    ∙ ap (receive (open_with [])) e
    ∙ receive_open [] (requests fs)
    ∙ drain-requests (length (requests fs)) fs h (omega arith)
