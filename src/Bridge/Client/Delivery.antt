-- ===== src/Bridge/Client/Delivery.antt =====
-- app/engine/bridge.py, `_ClientConn`: what a client is sent.
use ser2net.Common.{
  ℕ, ◌≤◌, ◌≡◌, refl, sym, ap, ◌∙◌, not, ◌||◌, Option, none, some, List, [], ◌∷◌, ◌++◌, append-nil,
  append_assoc, arith, if◌then◌else◌, length, length-append,
}
use ser2net.Bridge.Client.{
  Item, Client, Counters, is_full, feed_net, put_control, kick, request_graceful_close, contents,
  pump_item, pump,
}

contents-append : (xs ys : List Item) → contents (xs ++ ys) ≡ contents xs ++ contents ys
contents-append [] ys = refl
contents-append (none ∷ xs) ys = contents-append xs ys
contents-append (some net ∷ xs) ys =
    rw (contents-append xs ys, append_assoc net (contents xs) (contents ys))

-- What can happen to a client, in any order.
pub data Event : Type 0 where
  fed : Option (List ℕ) → Event
  control : List ℕ → Event
  pumped closeon : Event
  kicked_for : ℕ → Event

abbrev pub State : Type 0
State = Client × Counters

pub react : State → Event → State
unfolding feed_net put_control kick request_graceful_close pump
react (c, n) (fed net) = if c.closing || not c.has_session then (c, n) else feed_net c n net
react (c, n) (control ctrl) = (put_control c ctrl, n)
react (c, n) pumped = pump c n
react (c, n) closeon = (request_graceful_close c, n)
react (c, n) (kicked_for why) = (kick c why, n)

-- The bytes that an event adds to the client's stream.
pub accepted : State → Event → List ℕ
accepted (c, n) (fed none) = []
accepted (c, n) (fed (some net)) = if c.closing || (not c.has_session || is_full c) then [] else net
accepted (c, n) (control ctrl) = if is_full c then [] else ctrl
accepted (c, n) pumped = []
accepted (c, n) closeon = []
accepted (c, n) (kicked_for why) = []

abbrev pub stream : State → List ℕ
stream s = s.0.written ++ contents s.0.queue

stream-put :
    (c : Client) (net : List ℕ)
    → c.written ++ contents (c.queue ++ some net ∷ []) ≡ (c.written ++ contents c.queue) ++ net
stream-put c net = rw (
  contents-append c.queue (some net ∷ []),
  append-nil net,
  append_assoc c.written (contents c.queue) net,
)

stream-put_sentinel :
    (c : Client) → c.written ++ contents (c.queue ++ none ∷ []) ≡ c.written ++ contents c.queue
stream-put_sentinel c = rw (contents-append c.queue (none ∷ []), append-nil (contents c.queue))

stream-pump_item :
    (c : Client) (n : Counters) (items : List Item)
    → c.queue ≡ items
    → stream (pump_item c n items) ≡ c.written ++ contents items
unfolding pump_item
stream-pump_item c n [] e = rw e
stream-pump_item c n (none ∷ items) e = append-nil (c.written ++ contents items)
stream-pump_item c n (some net ∷ items) e = append_assoc c.written net (contents items)

-- One event: what is written and what is queued make up the stream accepted so far.
stream-react : (s : State) (e : Event) → stream (react s e) ≡ stream s ++ accepted s e
unfolding react accepted
stream-react (c, n) (fed none) = ground (arith, append-nil (stream (c, n)))
stream-react (c, n) (fed (some [])) = ground (arith, append-nil (stream (c, n)))
stream-react (c, n) (fed (some (b ∷ net))) =
    ground (arith, stream-put c (b ∷ net), append-nil (stream (c, n)))
stream-react (c, n) (control []) = ground (arith, append-nil (stream (c, n)))
stream-react (c, n) (control (b ∷ ctrl)) =
    ground (arith, stream-put c (b ∷ ctrl), append-nil (stream (c, n)))
stream-react (c, n) pumped =
    ground (arith, stream-pump_item c n c.queue refl, append-nil (stream (c, n)))
stream-react (c, n) closeon = ground (arith, stream-put_sentinel c, append-nil (stream (c, n)))
stream-react (c, n) (kicked_for why) = sym (append-nil (stream (c, n)))

pub run : State → List Event → State
run s [] = s
run s (e ∷ events) = run (react s e) events

pub accepted_all : State → List Event → List ℕ
accepted_all s [] = []
accepted_all s (e ∷ events) = accepted s e ++ accepted_all (react s e) events

-- Over any history of a client, what has been written to it followed by what is queued for it is
-- what it had before followed by the chunks accepted since, in the order they came.
pub stream-run :
    (s : State) (events : List Event) → stream (run s events) ≡ stream s ++ accepted_all s events
unfolding run accepted_all
stream-run s [] = sym (append-nil (stream s))
stream-run s (e ∷ events) =
    stream-run (react s e) events
    ∙ ap (λ (t : List ℕ). t ++ accepted_all (react s e) events) (stream-react s e)
    ∙ append_assoc (stream s) (accepted s e) (accepted_all (react s e) events)

-- The queue keeps its limit, and a client that has left the graceful way or any other takes no
-- more serial data.
bounded-react :
    (s : State) (e : Event)
    → length s.0.queue ≤ s.0.queue_max
    → length (react s e).0.queue ≤ (react s e).0.queue_max
unfolding react
bounded-react (c, n) (fed none) h = ground arith
bounded-react (c, n) (fed (some [])) h = ground arith
bounded-react (c, n) (fed (some (b ∷ net))) h =
    ground (arith, length-append c.queue (some (b ∷ net) ∷ []))
bounded-react (c, n) (control []) h = h
bounded-react (c, n) (control (b ∷ ctrl)) h =
    ground (arith, length-append c.queue (some (b ∷ ctrl) ∷ []))
bounded-react (c, n) pumped h = bounded_pump c n c.queue refl h
  where
    bounded_pump :
        (c : Client) (n : Counters) (items : List Item)
        → c.queue ≡ items
        → length c.queue ≤ c.queue_max
        → length (pump c n).0.queue ≤ (pump c n).0.queue_max
    bounded_pump c n [] e h = ground arith
    bounded_pump c n (none ∷ items) e h = ground arith
    bounded_pump c n (some net ∷ items) e h = ground arith
bounded-react (c, n) closeon h = ground (arith, length-append c.queue (none ∷ []))
bounded-react (c, n) (kicked_for why) h = h

-- Over any history, a client's output queue that is within its limit stays within it.
pub run_bounded :
    (s : State) (events : List Event)
    → length s.0.queue ≤ s.0.queue_max
    → length (run s events).0.queue ≤ (run s events).0.queue_max
unfolding run
run_bounded s [] h = h
run_bounded s (e ∷ events) h = run_bounded (react s e) events (bounded-react s e h)
