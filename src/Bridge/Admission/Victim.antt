-- ===== src/Bridge/Admission/Victim.antt =====
-- app/engine/bridge.py, `_pick_victim`: who is picked.
use mathlib.Core.Path.{subst}
use ser2net.Common.{
  ◌≤◌, ◌≡◌, refl, sym, ap, ◌∙◌, ◌⊎◌, inl, inr, true, false, some, List, [], ◌∷◌, arith, ltb,
  Bool-cases, ltb→lt, All,
}
use ser2net.Bridge.Admission.{Peer, non_priority, oldest, min_of, pool_of, pick_victim}

abbrev pub Member : Peer → List Peer → Type 0
Member v [] = ⊥
Member v (p ∷ ps) = (v ≡ p) ⊎ Member v ps

oldest_younger :
    (best p : Peer) (ps : List Peer)
    → ltb p.connected_at best.connected_at ≡ true
    → oldest best (p ∷ ps) ≡ oldest p ps
unfolding oldest
oldest_younger best p ps h = ground arith

oldest_older :
    (best p : Peer) (ps : List Peer)
    → ltb p.connected_at best.connected_at ≡ false
    → oldest best (p ∷ ps) ≡ oldest best ps
unfolding oldest
oldest_older best p ps h = ground arith

oldest_nil : (best : Peer) → oldest best [] ≡ best
unfolding oldest
oldest_nil best = refl

abbrev pub NotYounger : Peer → Peer → Type 0
NotYounger v p = v.connected_at ≤ p.connected_at

-- The oldest is one of the candidates, and none of them is older.
oldest-Member : (v best : Peer) (ps : List Peer) → oldest best ps ≡ v → Member v (best ∷ ps)
oldest-Member v best [] h = inl (sym h ∙ oldest_nil best)
oldest-Member v best (p ∷ ps) h = elim (Bool-cases (ltb p.connected_at best.connected_at)) [
  | inl younger ↦ inr (oldest-Member v p ps (sym (oldest_younger best p ps younger) ∙ h))
  | inr older ↦ elim (oldest-Member v best ps (sym (oldest_older best p ps older) ∙ h)) [
    | inl e ↦ inl e
    | inr m ↦ inr (inr m)
  ]
]

oldest-NotYounger :
    (v best : Peer) (ps : List Peer) → oldest best ps ≡ v → All (NotYounger v) (best ∷ ps)
oldest-NotYounger v best [] h =
    let same : best ≡ v = sym (oldest_nil best) ∙ h in (rw same (omega arith), tt)
oldest-NotYounger v best (p ∷ ps) h = elim (Bool-cases (ltb p.connected_at best.connected_at)) [
  | inl younger ↦
      let lt = ltb→lt p.connected_at best.connected_at younger in
      let ih = oldest-NotYounger v p ps (sym (oldest_younger best p ps younger) ∙ h) in
      (omega (arith, lt, ih.0), ih)
  | inr older ↦
      let ih = oldest-NotYounger v best ps (sym (oldest_older best p ps older) ∙ h) in
      (ih.0, (ground (arith, ih.0), ih.1))
]

-- The pool of candidates.
pool_high :
    (p : Peer) (ps : List Peer) → p.priority ≡ true → non_priority (p ∷ ps) ≡ non_priority ps
unfolding non_priority
pool_high p ps h = ground arith

pool_low :
    (p : Peer) (ps : List Peer) → p.priority ≡ false → non_priority (p ∷ ps) ≡ p ∷ non_priority ps
unfolding non_priority
pool_low p ps h = ground arith

Member-pool :
    (v : Peer) (ps : List Peer) → Member v (non_priority ps) → Member v ps × (v.priority ≡ false)
Member-pool v [] m = absurd (unfold non_priority in m)
Member-pool v (p ∷ ps) m = elim (Bool-cases p.priority) [
  | inl high ↦
      let (rest, low) = Member-pool v ps (subst (Member v) (pool_high p ps high) m) in
      (inr rest, low)
  | inr low ↦ elim (subst (Member v) (pool_low p ps low) m) [
    | inl e ↦ (inl e, ap (λ (q : Peer). q.priority) e ∙ low)
    | inr rest ↦ let (there, lower) = Member-pool v ps rest in (inr there, lower)
  ]
]

All-pool {ℓ} :
    (P : Peer → Type ℓ) (ps : List Peer)
    → All P (non_priority ps)
    → All (λ p. p.priority ≡ false → P p) ps
All-pool P [] h = tt
All-pool P (p ∷ ps) h = elim (Bool-cases p.priority) [
  | inl high ↦ (λ low. absurd (cc), All-pool P ps (subst (All P) (pool_high p ps high) h))
  | inr low ↦ let both = subst (All P) (pool_low p ps low) h in (λ e. both.0, All-pool P ps both.1)
]

no_pool→all_priority : (ps : List Peer) → non_priority ps ≡ [] → All (λ p. p.priority ≡ true) ps
no_pool→all_priority [] h = tt
no_pool→all_priority (p ∷ ps) h = elim (Bool-cases p.priority) [
  | inl high ↦ (high, no_pool→all_priority ps (sym (pool_high p ps high) ∙ h))
  | inr low ↦ absurd (let no_pool = sym (pool_low p ps low) ∙ h in cc)
]

-- A victim that may be picked.
pub record IsVictim (v : Peer) (clients : List Peer) : Type 0 where
  pub member : Member v clients
  pub oldest_of_class : All (λ p. p.priority ≡ v.priority → v.connected_at ≤ p.connected_at) clients
  pub spares_priority : v.priority ≡ true → All (λ p. p.priority ≡ true) clients

All-weaken {ℓ κ} :
    {P : Peer → Type ℓ} {Q : Peer → Type κ} (ps : List Peer)
    → ((p : Peer) → P p → Q p)
    → All P ps
    → All Q ps
All-weaken [] f h = tt
All-weaken (p ∷ ps) f h = (f p h.0, All-weaken ps f h.1)

IsVictim-of_pool :
    (clients : List Peer) (q : Peer) (pool : List Peer) {v : Peer}
    → non_priority clients ≡ q ∷ pool
    → min_of (q ∷ pool) ≡ some v
    → IsVictim v clients
unfolding min_of
IsVictim-of_pool clients q pool {v} e h =
    let is : oldest q pool ≡ v = cc in
    let (member, low) =
      Member-pool v clients (subst (Member v) (sym e) (oldest-Member v q pool is)) in
    let older =
      All-pool (NotYounger v) clients
        (subst (All (NotYounger v)) (sym e) (oldest-NotYounger v q pool is)) in
    record {
      member = member;
      oldest_of_class = All-weaken clients (λ p f same. f (same ∙ low)) older;
      spares_priority = λ high. absurd (cc);
    }

IsVictim-of_all :
    (q : Peer) (ps : List Peer) {v : Peer}
    → non_priority (q ∷ ps) ≡ []
    → min_of (q ∷ ps) ≡ some v
    → IsVictim v (q ∷ ps)
unfolding min_of
IsVictim-of_all q ps {v} e h =
    let is : oldest q ps ≡ v = cc in
    record {
      member = oldest-Member v q ps is;
      oldest_of_class = All-weaken (q ∷ ps) (λ p f same. f) (oldest-NotYounger v q ps is);
      spares_priority = λ high. no_pool→all_priority (q ∷ ps) e;
    }

pool_cases :
    (clients pool : List Peer) {v : Peer}
    → non_priority clients ≡ pool
    → min_of (pool_of pool clients) ≡ some v
    → IsVictim v clients
pool_cases [] [] e h = absurd (unfold min_of in cc)
pool_cases (q ∷ ps) [] e h = IsVictim-of_all q ps e h
pool_cases clients (q ∷ pool) e h = IsVictim-of_pool clients q pool e h

-- The client that is picked is a client; no client of its class, with or without priority, is
-- older; and it has priority only when every client has.
pub pick_victim-IsVictim :
    (clients : List Peer) {v : Peer} → pick_victim clients ≡ some v → IsVictim v clients
unfolding pick_victim
pick_victim-IsVictim clients h = pool_cases clients (non_priority clients) refl h

-- There is a victim whenever there is a client.
pub pick_victim_exists : (p : Peer) (ps : List Peer) → (v : Peer) × (pick_victim (p ∷ ps) ≡ some v)
unfolding pick_victim
pick_victim_exists p ps = exists (non_priority (p ∷ ps))
  where
    exists : (pool : List Peer) → (v : Peer) × (min_of (pool_of pool (p ∷ ps)) ≡ some v)
    exists [] = (oldest p ps, refl)
    exists (q ∷ qs) = (oldest q qs, refl)
