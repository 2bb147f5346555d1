-- ===== src/Bridge/Admission/Room.antt =====
-- app/engine/bridge.py, `_on_client`: the clients of a runner over a history of connections.
use ser2net.Common.{ℕ, ◌≤◌, ◌≡◌, refl, false, none, some, Option, List, [], ◌∷◌, arith, length, All}
use ser2net.Bridge.Access.{Address}
use ser2net.Bridge.Admission.{
  Peer, Runner, kick_victim, join, settle, on_client, pick_victim, leave, live,
}
use ser2net.Bridge.Admission.Slots.{Arrival, decide-cases, on_client-live}

-- A connection comes, or a client's session ends.
pub data Event : Type 0 where
  arrived : Arrival → Event
  departed : ℕ → Event

unfoldable pub serve : Runner → Event → Runner
unfolding on_client leave
serve r (arrived a) = on_client r a.id a.ip a.now
serve r (departed id) = record r { clients = leave id r.clients }

unfoldable pub serve_all : Runner → List Event → Runner
unfolding serve
serve_all r [] = r
serve_all r (e ∷ events) = serve_all (serve r e) events

-- Whenever a connection comes, the clients that were told to close have left.
unfoldable pub LeavePromptly : Runner → List Event → Type 0
LeavePromptly r [] = Unit
LeavePromptly r (arrived a ∷ events) =
    All (λ p. p.closing ≡ false) r.clients × LeavePromptly (serve r (arrived a)) events
LeavePromptly r (departed id ∷ events) = LeavePromptly (serve r (departed id)) events

live_open : (ps : List Peer) → All (λ p. p.closing ≡ false) ps → length ps ≡ live ps
unfolding live
live_open [] h = refl
live_open (p ∷ ps) h = let open_yet = h.0 in let rest = live_open ps h.1 in ground arith

live-leave : (id : ℕ) (ps : List Peer) → live (leave id ps) ≤ live ps
unfolding live leave
live-leave id [] = omega arith
live-leave id (p ∷ ps) = ground (arith, live-leave id ps)

kick_victim-max :
    (r : Runner) (v : Option Peer) → (kick_victim r v).max_connections ≡ r.max_connections
unfolding kick_victim
kick_victim-max r none = refl
kick_victim-max r (some v) = refl

on_client-max :
    (r : Runner) (id : ℕ) (ip : Address) (now : ℕ)
    → (on_client r id ip now).max_connections ≡ r.max_connections
unfolding on_client settle join
on_client-max r id ip now =
    decide-cases r ip (λ v. (settle r v id ip now).max_connections ≡ r.max_connections) refl refl
      (λ below. kick_victim-max r none) (λ full. kick_victim-max r (pick_victim r.clients))

-- For a protocol that does not wait for the serial port, with at least one slot and at first no more
-- clients that are not told to close than slots: over any history of connections and departures in
-- which the clients that were told to close have left whenever a connection comes, there are at its
-- end no more clients that are not told to close than slots.
pub serve_all-live :
    (r : Runner) (events : List Event)
    → 1 ≤ r.max_connections
    → live r.clients ≤ r.max_connections
    → LeavePromptly r events
    → live (serve_all r events).clients ≤ r.max_connections
unfolding serve_all serve LeavePromptly
serve_all-live r [] some_slot within prompt = within
serve_all-live r (arrived a ∷ events) some_slot within prompt =
    let same = on_client-max r a.id a.ip a.now in
    let next = on_client r a.id a.ip a.now in
    let all = live_open r.clients prompt.0 in
    let room = on_client-live r a.id a.ip a.now some_slot (omega arith) in
    let later = serve_all-live next events (omega arith) (omega arith) prompt.1 in omega arith
serve_all-live r (departed id ∷ events) some_slot within prompt =
    let fewer = live-leave id r.clients in
    serve_all-live (record r { clients = leave id r.clients }) events some_slot (omega arith) prompt
