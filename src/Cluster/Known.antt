-- ===== src/Cluster/Known.antt =====
-- app/engine/cluster.py: where the addresses come from that a node may reach.
use ser2net.Common.{
  ℕ, ◌-◌, ◌≤◌, Bool, true, false, ◌||◌, ◌≡◌, refl, sym, ap, ◌∙◌, inl, inr, Option, none, some, List,
  [], ◌∷◌, ◌++◌, arith, leb, is_nil, bytes_eq, Bool-cases, if◌then◌else◌, All,
}
use ser2net.Common.Texts.{bytes_eq_iff}
use ser2net.Cluster.{
  Library, Beacon, Peer, Datagram, Node, peer_ttl, put_peer, known_peer, verified, peer_of,
  add_peer, handle_datagram, live, peer_before, insert, sorted, peers,
}

-- What happens to the peers of a node.
pub data Step : Type 0 where
  received : Datagram → Step
  listed : ℕ → Step

module _ (lib : Library) where
  -- The peers after some steps, the last of them first.
  unfoldable pub known_after : Node → List Step → List Peer
  unfolding handle_datagram peers
  known_after node [] = []
  known_after node (received d ∷ steps) = handle_datagram lib node d (known_after node steps)
  known_after node (listed now ∷ steps) = (peers lib now (known_after node steps)).1

  -- The peer is that of a datagram that came and whose signature is that of the node's key.
  abbrev pub IsHeard : Node → List Step → Peer → Type 0
  IsHeard node steps p =
      (d : Datagram) × ((later : List Step) × (earlier : List Step) × (steps
          ≡ later ++ (received d ∷ earlier)))
      × (peer_of lib node d ≡ some p)
      × ((body : List ℕ) × (sig : List ℕ) × (lib.envelope d.payload ≡ some (body, sig))
          × (lib.sign node.key body ≡ sig))
      × (p.last_seen ≡ d.time)

  IsHeard-later :
      (node : Node) (s : Step) (steps : List Step) (p : Peer)
      → IsHeard node steps p
      → IsHeard node (s ∷ steps) p
  IsHeard-later node s steps p (d, (later, earlier, e), q, signed, seen) =
      (d, (s ∷ later, earlier, ap (λ r. s ∷ r) e), q, signed, seen)

  known_peer-seen :
      (node : Node) (d : Datagram) (b : Option Beacon) (p : Peer)
      → known_peer lib node d b ≡ some p
      → p.last_seen ≡ d.time
  known_peer-seen node d none p h = absurd (cc (h))
  known_peer-seen node d (some b) p h =
      elim (Bool-cases (is_nil b.id || bytes_eq b.id node.instance_id)) [
        | inl e ↦ absurd (cc (h, e))
        | inr e ↦ seen (is_nil b.id || bytes_eq b.id node.instance_id) _ h refl
      ]
    where
      seen :
          (c : Bool) (q : Peer)
          → (if c then none else some q) ≡ some p
          → q.last_seen ≡ d.time
          → p.last_seen ≡ d.time
      seen true q h t = absurd (cc (h))
      seen false q h t = let e : q ≡ p = cc (h) in ap (λ r. r.last_seen) (sym e) ∙ t

  peer_of-IsHeard :
      (node : Node) (d : Datagram) (steps : List Step) (p : Peer)
      → peer_of lib node d ≡ some p
      → IsHeard node (received d ∷ steps) p
  unfolding peer_of
  peer_of-IsHeard node d steps p h =
      let (signed, seen) = from_key (is_nil node.key) (lib.envelope d.payload) refl h in
      (d, ([], steps, refl), h, signed, seen)
    where
      from_key :
          (empty : Bool) (o : Option (List ℕ × List ℕ))
          → lib.envelope d.payload ≡ o
          → (if empty then none else verified lib node d o) ≡ some p
          → ((body : List ℕ) × (sig : List ℕ) × (lib.envelope d.payload ≡ some (body, sig))
              × (lib.sign node.key body ≡ sig))
            × (p.last_seen ≡ d.time)
      from_key true o e h = absurd (cc (h))
      from_key false none e h = absurd (cc (h))
      from_key false (some (body, sig)) e h =
          elim (Bool-cases (bytes_eq (lib.sign node.key body) sig)) [
            | inl s ↦ (
              (body, sig, e, (bytes_eq_iff (lib.sign node.key body) sig).0 s),
              known_peer-seen node d (lib.beacon body) p (rw (← h, s) refl),
            )
            | inr s ↦ absurd (cc (h, s))
          ]

  AllHeard-later :
      (node : Node) (s : Step) (steps : List Step) (ps : List Peer)
      → All (IsHeard node steps) ps
      → All (IsHeard node (s ∷ steps)) ps
  AllHeard-later node s steps [] h = tt
  AllHeard-later node s steps (p ∷ ps) h =
      (IsHeard-later node s steps p h.0, AllHeard-later node s steps ps h.1)

  put_peer-All :
      (P : Peer → Type 0) (p : Peer) (ps : List Peer) → P p → All P ps → All P (put_peer p ps)
  put_peer-All P p [] h hs = (h, tt)
  put_peer-All P p (q ∷ ps) h hs = elim (Bool-cases (bytes_eq q.id p.id)) [
    | inl e ↦ rw (e) (h, hs.1)
    | inr e ↦ rw (e) (hs.0, put_peer-All P p ps h hs.1)
  ]

  live-All : (P : Peer → Type 0) (now : ℕ) (ps : List Peer) → All P ps → All P (live lib now ps)
  live-All P now [] h = tt
  live-All P now (p ∷ ps) h = elim (Bool-cases (leb (now - p.last_seen) peer_ttl)) [
    | inl e ↦ rw (e) (h.0, live-All P now ps h.1)
    | inr e ↦ rw (e) (live-All P now ps h.1)
  ]

  abbrev pub IsFresh : ℕ → Peer → Type 0
  IsFresh now p = now - p.last_seen ≤ peer_ttl

  pub live-IsFresh :
      (P : Peer → Type 0) (now : ℕ) (ps : List Peer)
      → All P ps
      → All (λ p. P p × IsFresh now p) (live lib now ps)
  live-IsFresh P now [] h = tt
  live-IsFresh P now (p ∷ ps) h = elim (Bool-cases (leb (now - p.last_seen) peer_ttl)) [
    | inl e ↦ rw (e) ((h.0, ground (arith, e)), live-IsFresh P now ps h.1)
    | inr e ↦ rw (e) (live-IsFresh P now ps h.1)
  ]

  insert-All :
      (P : Peer → Type 0) (p : Peer) (ps : List Peer) → P p → All P ps → All P (insert lib p ps)
  insert-All P p [] h hs = (h, tt)
  insert-All P p (q ∷ ps) h hs = elim (Bool-cases (peer_before lib q p)) [
    | inl e ↦ rw (e) (hs.0, insert-All P p ps h hs.1)
    | inr e ↦ rw (e) (h, hs)
  ]

  pub sorted-All : (P : Peer → Type 0) (ps : List Peer) → All P ps → All P (sorted lib ps)
  sorted-All P [] h = tt
  sorted-All P (p ∷ ps) h = insert-All P p (sorted lib ps) h.0 (sorted-All P ps h.1)

  pub known_after-AllHeard :
      (node : Node) (steps : List Step) → All (IsHeard node steps) (known_after node steps)
  unfolding known_after handle_datagram peers
  known_after-AllHeard node [] = tt
  known_after-AllHeard node (listed now ∷ steps) =
      live-All (IsHeard node (listed now ∷ steps)) now (known_after node steps) (
        AllHeard-later node (listed now) steps (known_after node steps)
          (known_after-AllHeard node steps))
  known_after-AllHeard node (received d ∷ steps) = added (peer_of lib node d) refl (
      AllHeard-later node (received d) steps (known_after node steps)
        (known_after-AllHeard node steps))
    where
      added :
          (o : Option Peer)
          → peer_of lib node d ≡ o
          → All (IsHeard node (received d ∷ steps)) (known_after node steps)
          → All (IsHeard node (received d ∷ steps)) (add_peer lib o (known_after node steps))
      added none e h = h
      added (some p) e h =
          put_peer-All (IsHeard node (received d ∷ steps)) p (known_after node steps)
            (peer_of-IsHeard node d steps p e) h
