-- ===== src/Bridge/Admission/Slots.antt =====
-- app/engine/bridge.py, `_on_client`: how many clients hold a slot.
use ser2net.Common.{
  ℕ, ◌+◌, ◌≤◌, ◌<◌, ◌≡◌, refl, sym, ap, ◌∙◌, inl, inr, true, false, not, ◌||◌, none, some, List, [],
  ◌∷◌, ◌++◌, arith, leb, ◌==◌, Bool-cases, if-elim, leb→le, ==_iff, length, All,
}
use ser2net.Bridge.Access.{Address, ip_in_nets, client_allowed}
use ser2net.Bridge.Admission.{
  Peer, Runner, Verdict, not_allowed, busy, admitted, pick_victim, kick_peer, decide, kick_victim,
  join, settle, on_client, live,
}
use ser2net.Bridge.Admission.Victim.{Member, pick_victim-IsVictim, pick_victim_exists}

live-append : (ps : List Peer) (p : Peer) → live (ps ++ p ∷ []) ≤ live ps + 1
unfolding live
live-append [] p = ground arith
live-append (q ∷ ps) p = ground (arith, live-append ps p)

live-le-length : (ps : List Peer) → live ps ≤ length ps
unfolding live
live-le-length [] = omega arith
live-le-length (p ∷ ps) = ground (arith, live-le-length ps)

live-kick_le : (id : ℕ) (ps : List Peer) → live (kick_peer id ps) ≤ length ps
unfolding live kick_peer
live-kick_le id [] = omega arith
live-kick_le id (p ∷ ps) = ground (arith, live-kick_le id ps)

-- Telling a member to close frees its slot.
live-kick-Member : (v : Peer) (ps : List Peer) → Member v ps → live (kick_peer v.id ps) < length ps
unfolding live kick_peer
live-kick-Member v [] m = absurd m
live-kick-Member v (p ∷ ps) (inl e) =
    let same : p.id ≡ v.id = sym (ap (λ (q : Peer). q.id) e) in
    ground (arith, same, live-kick_le v.id ps)
live-kick-Member v (p ∷ ps) (inr m) = ground (arith, live-kick-Member v ps m)

joined :
    (r : Runner) (id : ℕ) (ip : Address) (now : ℕ)
    → live (join r id ip now).clients ≤ live r.clients + 1
unfolding join
joined r id ip now = live-append r.clients _

kicked-live :
    (r : Runner) {v : Peer}
    → pick_victim r.clients ≡ some v
    → live (kick_victim r (some v)).clients < length r.clients
unfolding kick_victim
kicked-live r {v} h = live-kick-Member v r.clients (pick_victim-IsVictim r.clients h).member

kick_pick-live :
    (r : Runner)
    → 1 ≤ length r.clients
    → live (kick_victim r (pick_victim r.clients)).clients < length r.clients
kick_pick-live r h = picked r.clients refl h
  where
    picked :
        (ps : List Peer)
        → r.clients ≡ ps
        → 1 ≤ length r.clients
        → live (kick_victim r (pick_victim r.clients)).clients < length r.clients
    picked [] e h = absurd (omega (arith, ap length e))
    picked (p ∷ ps) e h =
        let (v, found) = pick_victim_exists p ps in
        let here : pick_victim r.clients ≡ some v = rw e found in rw here (kicked-live r here)

-- The four ways a connection can be decided.
pub decide-cases :
    (r : Runner) (ip : Address) (P : Verdict → Type 0)
    → P not_allowed
    → P busy
    → (length r.clients < r.max_connections → P (admitted none))
    → (r.max_connections ≤ length r.clients → P (admitted (pick_victim r.clients)))
    → P (decide r ip)
unfolding decide
decide-cases r ip P rejected full free kicking =
    if-elim P (not (client_allowed r.allowed ip)) (λ _. rejected)
      λ _.
        if-elim P (leb r.max_connections (length r.clients))
          (λ at_limit.
            if-elim P (ip_in_nets ip r.priority_nets || r.kick_old_user)
              (λ _. kicking (leb→le r.max_connections (length r.clients) at_limit)) (λ _. full))
          (λ below. free (ground arith))

-- With at least one slot and no more clients, closing ones included, than slots, a new connection
-- leaves no more clients that are not told to close than slots.
pub on_client-live :
    (r : Runner) (id : ℕ) (ip : Address) (now : ℕ)
    → 1 ≤ r.max_connections
    → length r.clients ≤ r.max_connections
    → live (on_client r id ip now).clients ≤ r.max_connections
unfolding on_client
on_client-live r id ip now some_slot within =
    let all = live-le-length r.clients in
    decide-cases r ip (λ v. live (settle r v id ip now).clients ≤ r.max_connections)
      (unfold settle in omega arith) (unfold settle in omega arith)
      (λ below. unfold settle in omega (arith, joined r id ip now))
      (λ full.
        let freed = kick_pick-live r (omega arith) in
        unfold settle in omega (arith, joined (kick_victim r (pick_victim r.clients)) id ip now))

-- A connection of a protocol that waits for the serial port is decided first and joins later,
-- after the connections that came while it waited.
pub record Arrival : Type 0 where
  pub id : ℕ
  pub ip : Address
  pub now : ℕ

pub join_all : Runner → List Arrival → Runner
join_all r [] = r
join_all r (a ∷ rest) = join_all (join r a.id a.ip a.now) rest

live-append_open :
    (ps : List Peer) (p : Peer) → p.closing ≡ false → live (ps ++ p ∷ []) ≡ live ps + 1
unfolding live
live-append_open [] p h = ground arith
live-append_open (q ∷ ps) p h = omega (arith, live-append_open ps p h)

live-join :
    (r : Runner) (id : ℕ) (ip : Address) (now : ℕ)
    → live (join r id ip now).clients ≡ live r.clients + 1
unfolding join
live-join r id ip now = live-append_open r.clients _ refl

live-join_all :
    (r : Runner) (late : List Arrival)
    → live (join_all r late).clients ≡ live r.clients + length late
unfolding join_all
live-join_all r [] = omega arith
live-join_all r (a ∷ rest) =
    omega (arith, live-join r a.id a.ip a.now, live-join_all (join r a.id a.ip a.now) rest)

decide_free :
    (r : Runner) (ip : Address)
    → r.clients ≡ []
    → 1 ≤ r.max_connections
    → client_allowed r.allowed ip ≡ true
    → decide r ip ≡ admitted none
unfolding decide
decide_free r ip none_yet some_slot ok = ground arith

-- While the serial port is not ready and nobody is connected, every allowed connection of a
-- waiting protocol is let in, so when more of them than the limit come before the port is ready,
-- more clients than the limit are connected and none of them is told to close.
pub waiting_exceeds :
    (r : Runner) (late : List Arrival)
    → r.clients ≡ []
    → 1 ≤ r.max_connections
    → All (λ a. client_allowed r.allowed a.ip ≡ true) late
    → r.max_connections < length late
    → All (λ a. decide r a.ip ≡ admitted none) late
      × (r.max_connections < live (join_all r late).clients)
waiting_exceeds r late none_yet some_slot ok many =
    (decided late ok, omega (arith, live-join_all r late))
  where
    decided :
        (late : List Arrival)
        → All (λ a. client_allowed r.allowed a.ip ≡ true) late
        → All (λ a. decide r a.ip ≡ admitted none) late
    decided [] ok = tt
    decided (a ∷ rest) ok = (decide_free r a.ip none_yet some_slot ok.0, decided rest ok.1)

live-kick_closing :
    (id : ℕ) (ps : List Peer)
    → All (λ p. p.id ≡ id → p.closing ≡ true) ps
    → live (kick_peer id ps) ≡ live ps
unfolding live kick_peer
live-kick_closing id [] h = refl
live-kick_closing id (p ∷ ps) h =
    let ih = live-kick_closing id ps h.1 in
    elim (Bool-cases (p.id == id)) [
      | inl same ↦ let closing = h.0 ((==_iff p.id id).0 same) in ground (arith, closing, ih)
      | inr other ↦ ground (arith, ih)
    ]

decide_kicking :
    (r : Runner) (ip : Address)
    → r.max_connections ≤ length r.clients
    → r.kick_old_user ≡ true
    → client_allowed r.allowed ip ≡ true
    → decide r ip ≡ admitted (pick_victim r.clients)
unfolding decide
decide_kicking r ip full kicks ok = ground arith

-- With `kick_old_user`, when clients that are not told to close hold every slot and the victim
-- picked, alone with its id, was told to close already, one more allowed connection is let in,
-- and more clients than the limit are then connected and not told to close.
pub second_kick_exceeds :
    (r : Runner) (v : Peer) (id : ℕ) (ip : Address) (now : ℕ)
    → r.kick_old_user ≡ true
    → client_allowed r.allowed ip ≡ true
    → r.max_connections ≤ live r.clients
    → pick_victim r.clients ≡ some v
    → All (λ p. p.id ≡ v.id → p.closing ≡ true) r.clients
    → r.max_connections < live (on_client r id ip now).clients
unfolding on_client settle kick_victim
second_kick_exceeds r v id ip now kicks ok full picked closing =
    let decided : decide r ip ≡ admitted (some v) =
      decide_kicking r ip (omega (arith, full, live-le-length r.clients)) kicks ok
      ∙ ap admitted picked in
    rw decided (
      omega (
        arith,
        full,
        live-kick_closing v.id r.clients closing,
        live-join (kick_victim r (some v)) id ip now,
      ))
