-- ===== src/Bridge/Client/Graceful.antt =====
-- app/engine/bridge.py, `request_graceful_close` and what the pump does after it.
use ser2net.Common.{
  ℕ, zero, suc, ◌+◌, ◌<◌, ◌≡◌, refl, ap, ◌∙◌, true, false, none, some, List, [], ◌∷◌, ◌++◌,
  append_assoc, arith, length,
}
use ser2net.Bridge.Client.{
  closeon_match, Item, Client, Counters, first_reason, request_graceful_close, contents, pump,
}

pub pumps : ℕ → Client → Counters → Client × Counters
pumps zero c n = (c, n)
pumps (suc k) c n = let (c', n') = pump c n in pumps k c' n'

pumps-suc :
    (k : ℕ) (c : Client) (n : Counters) → pumps (suc k) c n ≡ pumps k (pump c n).0 (pump c n).1
unfolding pumps
pumps-suc k c n = refl

pump_ended : (c : Client) (n : Counters) → c.ended ≡ true → pump c n ≡ (c, n)
unfolding pump
pump_ended c n h = ground arith

pumps_ended : (k : ℕ) (c : Client) (n : Counters) → c.ended ≡ true → pumps k c n ≡ (c, n)
pumps_ended zero c n h = unfold pumps in refl
pumps_ended (suc k) c n h = pumps-suc k c n ∙ rw (pump_ended c n h) (pumps_ended k c n h)

pump_sentinel :
    (c : Client) (n : Counters) (items : List Item)
    → c.queue ≡ none ∷ items
    → c.ended ≡ false
    → pump c n ≡ (record c { queue = []; written = c.written ++ contents items; ended = true }, n)
unfolding pump
pump_sentinel c n items e h = ground arith

pump_chunk :
    (c : Client) (n : Counters) (net : List ℕ) (items : List Item)
    → c.queue ≡ some net ∷ items
    → c.ended ≡ false
    → pump c n ≡ (
      record c { queue = items; written = c.written ++ net },
      record n { bytes_in = n.bytes_in + length net },
    )
unfolding pump
pump_chunk c n net items e h = ground arith

abbrev HasSentinel : List Item → Type 0
HasSentinel [] = ⊥
HasSentinel (none ∷ items) = Unit {0}
HasSentinel (some net ∷ items) = HasSentinel items

-- As many rounds as there are items flush everything and end the pump.
flush :
    (items : List Item) (c : Client) (n : Counters)
    → c.queue ≡ items
    → c.ended ≡ false
    → HasSentinel items
    → ((pumps (length items) c n).0.ended ≡ true)
      × ((pumps (length items) c n).0.written ≡ c.written ++ contents items)
flush [] c n e h s = absurd s
flush (none ∷ items) c n e h s =
    let c' : Client = record c {
      queue = [];
      written = c.written ++ contents items;
      ended = true;
    } in
    rw
      (
        pumps-suc (length items) c n,
        pump_sentinel c n items e h,
        pumps_ended (length items) c' n refl,
      )
      (refl, refl)
flush (some net ∷ items) c n e h s =
    rw
      (
        pumps-suc (length items) c n,
        pump_chunk c n net items e h,
        ← append_assoc c.written net (contents items),
      )
      (flush items _ _ refl h s)

HasSentinel-put : (items : List Item) → HasSentinel (items ++ none ∷ [])
HasSentinel-put [] = tt
HasSentinel-put (none ∷ items) = tt
HasSentinel-put (some net ∷ items) = HasSentinel-put items

contents-put : (items : List Item) → contents (items ++ none ∷ []) ≡ contents items
contents-put [] = refl
contents-put (none ∷ items) = contents-put items
contents-put (some net ∷ items) = ap (◌++◌ net) (contents-put items)

-- A client that is not closing, whose pump runs and whose queue has room, takes no more serial
-- data after a graceful close; and when the pump has made as many rounds as items are queued,
-- everything queued before is written and the pump has ended.
pub request_graceful_close_delivers :
    (c : Client) (n : Counters)
    → c.closing ≡ false
    → c.ended ≡ false
    → length c.queue < c.queue_max
    → let c' = request_graceful_close c in
      let after = (pumps (length c'.queue) c' n).0 in
      (c'.closing ≡ true) × (after.ended ≡ true) × (after.written ≡ c.written ++ contents c.queue)
request_graceful_close_delivers c n h running room =
    let (ended, written) =
      flush (c.queue ++ none ∷ []) closed n refl running (HasSentinel-put c.queue) in
    rw (made, ← contents-put c.queue) (refl, ended, written)
  where
    closed : Client
    closed = record c {
      queue = c.queue ++ none ∷ [];
      closing = true;
      close_reason = first_reason c.close_reason closeon_match;
    }

    made : request_graceful_close c ≡ closed
    made = unfold request_graceful_close in ground arith
