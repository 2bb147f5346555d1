-- ===== src/Gateway/Masters.antt =====
-- app/engine/modbus_gateway.py, `_on_client`: which masters are let in, and how long each is waited
-- for. Times are whole numbers of one unit.
use ser2net.Common.{
  ℕ, ◌-◌, ◌≤◌, min, not, Option, none, some, List, [], ◌∷◌, ◌++◌, arith, ltb, leb, ◌==◌,
  if◌then◌else◌, if-elim, length, length-append,
}
use ser2net.Bridge.Access.{Address, Network, client_allowed}

pub record Masters : Type 0 where
  pub connected : List ℕ
  pub max_connections : ℕ
  pub allowed : List Network

-- `_allowed` and `_ip_in_nets` are those of the bridge. Nothing is awaited before the master joins.
unfoldable pub join_master : Masters → ℕ → Address → Masters
unfolding client_allowed
join_master g id ip =
    if not (client_allowed g.allowed ip)
    then g
    else if leb g.max_connections (length g.connected)
    then g
    else record g { connected = g.connected ++ id ∷ [] }

unfoldable pub discard_master : ℕ → List ℕ → List ℕ
discard_master id [] = []
discard_master id (j ∷ js) = if j == id then discard_master id js else j ∷ discard_master id js

-- `_next_timer`
unfoldable pub next_timer : ℕ → Option ℕ → ℕ → Option ℕ
next_timer idle none now = if ltb 0 idle then some idle else none
next_timer idle (some deadline) now =
    some (if ltb 0 idle then min idle (deadline - now) else deadline - now)

pub data Visit : Type 0 where
  arrives : ℕ → Address → Visit
  leaves : ℕ → Visit

unfoldable pub visit : Masters → Visit → Masters
unfolding join_master discard_master
visit g (arrives id ip) = join_master g id ip
visit g (leaves id) = record g { connected = discard_master id g.connected }

unfoldable pub visit_all : Masters → List Visit → Masters
unfolding visit
visit_all g [] = g
visit_all g (v ∷ visits) = visit_all (visit g v) visits

discard-le : (id : ℕ) (js : List ℕ) → length (discard_master id js) ≤ length js
unfolding discard_master
discard-le id [] = omega arith
discard-le id (j ∷ js) = ground (arith, discard-le id js)

-- A gateway within its limit of masters.
abbrev pub IsWithin : Masters → Type 0
IsWithin g = length g.connected ≤ g.max_connections

visit-IsWithin : (g : Masters) (v : Visit) → IsWithin g → IsWithin (visit g v)
unfolding visit join_master
visit-IsWithin g (leaves id) h = omega (arith, discard-le id g.connected)
visit-IsWithin g (arrives id ip) h =
    if-elim IsWithin (not (client_allowed g.allowed ip)) (λ _. h)
      λ _.
        if-elim IsWithin (leb g.max_connections (length g.connected)) (λ _. h)
          (λ below. ground (arith, length-append g.connected (id ∷ [])))

-- However masters come and go, a gateway within its limit of masters stays within it.
pub visit_all-IsWithin :
    (g : Masters) (visits : List Visit) → IsWithin g → IsWithin (visit_all g visits)
unfolding visit_all
visit_all-IsWithin g [] h = h
visit_all-IsWithin g (v ∷ visits) h = visit_all-IsWithin (visit g v) visits (visit-IsWithin g v h)
