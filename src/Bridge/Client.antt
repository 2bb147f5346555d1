-- ===== src/Bridge/Client.antt =====
-- app/engine/bridge.py, `_ClientConn`: the output queue of one client and its closing.
-- The transport is the list of bytes written to it and whether it was aborted.
pub mod Delivery
pub mod Graceful
use ser2net.Common.{
  ℕ, ◌+◌, Bool, true, not, ◌||◌, Option, none, some, List, [], ◌∷◌, ◌++◌, leb, if◌then◌else◌,
  length,
}

-- Why a session ended; the first cause is kept.
pub data Reason : Type 0 where
  queue_full closeon_match : Reason
  kicked : ℕ → Reason

-- A queued chunk; `none` is the graceful-close sentinel.
abbrev pub Item : Type 0
Item = Option (List ℕ)

pub record Client : Type 0 where
  pub queue : List Item
  pub queue_max : ℕ
  pub closing : Bool
  pub has_session : Bool
  pub close_reason : Option Reason
  pub aborted : Bool
  pub written : List ℕ
  pub ended : Bool

-- The runner's counters that a client touches.
pub record Counters : Type 0 where
  pub queue_overflows : ℕ
  pub dropped_clients : ℕ
  pub bytes_in : ℕ

abbrev pub first_reason : Option Reason → Reason → Option Reason
first_reason none r = some r
first_reason (some old) r = some old

abbrev pub is_full : Client → Bool
is_full c = leb c.queue_max (length c.queue)

abbrev pub put : Client → Item → Client
put c item = record c { queue = c.queue ++ item ∷ [] }

-- `put_nowait` on the client's own queue, or the client is dropped.
unfoldable pub enqueue : Client → Counters → List ℕ → Client × Counters
enqueue c n net =
    if is_full c
    then (
      record c {
        closing = true;
        close_reason = first_reason c.close_reason queue_full;
        aborted = true;
      },
      record n { queue_overflows = n.queue_overflows + 1; dropped_clients = n.dropped_clients + 1 },
    )
    else (put c (some net), n)

-- `net` is what the session's `from_serial` gave: none where it raised.
unfoldable pub feed_net : Client → Counters → Option (List ℕ) → Client × Counters
unfolding enqueue
feed_net c n none = (c, n)
feed_net c n (some []) = (c, n)
feed_net c n (some (b ∷ net)) = enqueue c n (b ∷ net)

-- The session's `from_serial` is the first argument.
unfoldable pub feed_from_serial :
    (List ℕ → Option (List ℕ)) → Client → Counters → List ℕ → Client × Counters
unfolding feed_net
feed_from_serial from_serial c n chunk =
    if c.closing || not c.has_session then (c, n) else feed_net c n (from_serial chunk)

-- Control bytes of the protocol; a full queue drops them.
unfoldable pub put_control : Client → List ℕ → Client
put_control c [] = c
put_control c (b ∷ ctrl) = if is_full c then c else put c (some (b ∷ ctrl))

unfoldable pub kick : Client → ℕ → Client
kick c why = record c {
  closing = true;
  close_reason = first_reason c.close_reason (kicked why);
  aborted = true;
}

unfoldable pub request_graceful_close : Client → Client
request_graceful_close c =
    if c.closing
    then c
    else let c' = record c {
      closing = true;
      close_reason = first_reason c.close_reason closeon_match;
    } in
      if is_full c then record c' { aborted = true } else put c' none

-- The bytes of the queued chunks, in order.
abbrev pub contents : List Item → List ℕ
contents [] = []
contents (none ∷ items) = contents items
contents (some net ∷ items) = net ++ contents items

-- One round of `_pump_serial_to_net`: it waits on an empty queue, and the sentinel flushes the
-- rest and ends it.
unfoldable pub pump_item : Client → Counters → List Item → Client × Counters
pump_item c n [] = (c, n)
pump_item c n (none ∷ items) =
    (record c { queue = []; written = c.written ++ contents items; ended = true }, n)
pump_item c n (some net ∷ items) = (
  record c { queue = items; written = c.written ++ net },
  record n { bytes_in = n.bytes_in + length net },
)

unfoldable pub pump : Client → Counters → Client × Counters
unfolding pump_item
pump c n = if c.ended then (c, n) else pump_item c n c.queue
