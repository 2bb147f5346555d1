-- ===== src/Cluster/Reach.antt =====
-- app/engine/cluster.py, `known_addresses`: the addresses that a node may reach.
use ser2net.Common.{
  ℕ, Bool, true, false, ◌&&◌, ◌||◌, ◌≡◌, refl, ap, inl, inr, ◌⊎◌, Option, none, some, List, [], ◌∷◌,
  ◌++◌, bytes_eq, Bool-cases, All,
}
use ser2net.Common.Int.{ℤ, same_int, same_int-eq}
use ser2net.Common.Texts.{bytes_eq_iff}
use ser2net.Cluster.{
  Library, Peer, Node, Target, peers, sorted, live, parse_cluster_peer, add_target, manual_targets,
  auto_targets, is_seen, add_manual, all_targets, is_known,
}
use ser2net.Cluster.Known.{
  Step, known_after, IsHeard, IsFresh, live-IsFresh, sorted-All, known_after-AllHeard,
}

module _ (lib : Library) where
  abbrev IsAt : Target → List ℕ → ℤ → Type 0
  IsAt t ip port = (t.ip ≡ ip) × (t.port ≡ port)

  -- One of the configured entries is read as this address.
  abbrev pub IsConfigured : List (List ℕ) → List ℕ → ℤ → Type 0
  IsConfigured entries host port =
      (e : List ℕ) × (u : Target) × ((before : List (List ℕ)) × (after : List (List ℕ)) × (entries
          ≡ before ++ (e ∷ after)))
      × (parse_cluster_peer lib e ≡ some u)
      × (host ≡ u.ip)
      × (port ≡ u.port)

  -- A peer at this address was heard within PEER_TTL, with a signature of the node's key.
  abbrev pub IsAlive : Node → List Step → ℕ → List ℕ → ℤ → Type 0
  IsAlive node steps now host port =
      (p : Peer) × (IsHeard lib node steps p × IsFresh lib now p) × (host ≡ p.ip) × (port ≡ p.port)

  same_address :
      (t u : Target) (rest : Bool)
      → (bytes_eq t.ip u.ip && same_int t.port u.port || rest) ≡ true
      → IsAt t u.ip u.port ⊎ (rest ≡ true)
  same_address t u rest h = elim (Bool-cases (bytes_eq t.ip u.ip)) [
    | inl e ↦ elim (Bool-cases (same_int t.port u.port)) [
      | inl p ↦ inl ((bytes_eq_iff t.ip u.ip).0 e, same_int-eq t.port u.port p)
      | inr p ↦ inr (rw (← h, e, p) refl)
    ]
    | inr e ↦ inr (rw (← h, e) refl)
  ]

  is_seen-append :
      (t : Target) (xs ys : List Target)
      → is_seen t (xs ++ ys) ≡ true
      → (is_seen t xs ≡ true) ⊎ (is_seen t ys ≡ true)
  is_seen-append t [] ys h = inr h
  is_seen-append t (x ∷ xs) ys h =
      elim (Bool-cases (bytes_eq t.ip x.ip && same_int t.port x.port)) [
        | inl e ↦ inl (rw (e) refl)
        | inr e ↦ elim (is_seen-append t xs ys (rw (← h, e) refl)) [
          | inl l ↦ inl (rw (e) l)
          | inr r ↦ inr r
        ]
      ]

  add_manual-seen :
      (t : Target) (targets manual : List Target)
      → is_seen t (add_manual targets manual) ≡ true
      → (is_seen t targets ≡ true) ⊎ (is_seen t manual ≡ true)
  add_manual-seen t targets [] h = inl h
  add_manual-seen t targets (m ∷ manual) h = elim (Bool-cases (is_seen m targets)) [
    | inl e ↦ elim (add_manual-seen t targets manual (rw (← h, e) refl)) [
      | inl l ↦ inl l
      | inr r ↦ inr (later r)
    ]
    | inr e ↦ elim (add_manual-seen t (targets ++ (m ∷ [])) manual (rw (← h, e) refl)) [
      | inl l ↦ elim (is_seen-append t targets (m ∷ []) l) [ inl x ↦ inl x | inr x ↦ inr (first x) ]
      | inr r ↦ inr (later r)
    ]
  ]
    where
      later : is_seen t manual ≡ true → is_seen t (m ∷ manual) ≡ true
      later r = elim (Bool-cases (bytes_eq t.ip m.ip && same_int t.port m.port)) [
        | inl e ↦ rw (e) refl
        | inr e ↦ rw (e) r
      ]

      first : is_seen t (m ∷ []) ≡ true → is_seen t (m ∷ manual) ≡ true
      first x = elim (Bool-cases (bytes_eq t.ip m.ip && same_int t.port m.port)) [
        | inl e ↦ rw (e) refl
        | inr e ↦ absurd (cc (x, e))
      ]

  auto_targets-seen :
      (P : Peer → Type 0) (t : Target) (ps : List Peer)
      → All P ps
      → is_seen t (auto_targets ps) ≡ true
      → (p : Peer) × P p × (t.ip ≡ p.ip) × (t.port ≡ p.port)
  auto_targets-seen P t [] h e = absurd (cc (e))
  auto_targets-seen P t (p ∷ ps) h e =
      let u : Target = record { scheme = p.scheme; ip = p.ip; port = p.port; is_auto = true } in
      elim (same_address t u (is_seen t (auto_targets ps)) e) [
        | inl at ↦ (p, h.0, at.0, at.1)
        | inr r ↦ auto_targets-seen P t ps h.1 r
      ]

  manual_targets-seen :
      (t : Target) (entries : List (List ℕ))
      → is_seen t (manual_targets lib entries) ≡ true
      → IsConfigured entries t.ip t.port
  unfolding manual_targets
  manual_targets-seen t [] e = absurd (cc (e))
  manual_targets-seen t (entry ∷ entries) e =
      parsed (parse_cluster_peer lib entry) refl e (λ k. later (manual_targets-seen t entries k))
    where
      later : IsConfigured entries t.ip t.port → IsConfigured (entry ∷ entries) t.ip t.port
      later (e', u, (before, after, place), rest, ip, port) =
          (e', u, (entry ∷ before, after, ap (λ r. entry ∷ r) place), rest, ip, port)

      parsed :
          (o : Option Target)
          → parse_cluster_peer lib entry ≡ o
          → is_seen t (add_target lib o (manual_targets lib entries)) ≡ true
          → (is_seen t (manual_targets lib entries) ≡ true
              → IsConfigured (entry ∷ entries) t.ip t.port)
          → IsConfigured (entry ∷ entries) t.ip t.port
      parsed none q e more = more e
      parsed (some u) q e more =
          elim (same_address t u (is_seen t (manual_targets lib entries)) e) [
            | inl at ↦ (entry, u, ([], entries, refl), q, at.0, at.1)
            | inr r ↦ more r
          ]

  -- A node may only reach an address of a peer that it heard within PEER_TTL, by a datagram that
  -- was signed with the node's key, or an address of its configuration, whatever it receives.
  pub is_known-IsAlive :
      (node : Node) (steps : List Step) (now : ℕ) (host : List ℕ) (port : ℤ)
      → is_known lib node now (known_after lib node steps) host port ≡ true
      → IsAlive node steps now host port ⊎ IsConfigured node.peers host port
  unfolding is_known all_targets peers
  is_known-IsAlive node steps now host port h =
      let t : Target = record { scheme = []; ip = host; port = port; is_auto = false } in
      let known = known_after lib node steps in
      elim (add_manual-seen t (auto_targets (sorted lib (live lib now known)))
        (manual_targets lib node.peers) h) [
          | inl auto ↦ inl (
              auto_targets-seen (λ p. IsHeard lib node steps p × IsFresh lib now p) t
                (sorted lib (live lib now known))
                (sorted-All lib (λ p. IsHeard lib node steps p × IsFresh lib now p)
                  (live lib now known)
                  (live-IsFresh lib (IsHeard lib node steps) now known
                    (known_after-AllHeard lib node steps)))
                auto)
          | inr manual ↦ inr (manual_targets-seen t node.peers manual)
        ]
