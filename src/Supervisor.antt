-- ===== src/Supervisor.antt =====
-- app/engine/supervisor.py: the runners of the mappings, and what replaces, stops and removes them.
-- A runner is a number that is never used twice; the dict of runners is a function with the list of
-- its keys. Stopping a runner always works; whether a start works is an argument.
pub mod Tracked
pub mod History
pub mod Orphans
mod Tests
use ser2net.Common.{
  ℕ, ◌+◌, Bool, false, ◌&&◌, ◌||◌, Option, none, some, List, [], ◌∷◌, ◌++◌, ◌==◌, if◌then◌else◌,
}

pub record Mapping : Type 0 where
  pub id : ℕ
  pub enabled : Bool

pub record State : Type 0 where
  pub runners : ℕ → Option ℕ
  pub keys : List ℕ
  pub order : List ℕ
  pub alive : ℕ → Bool
  pub next : ℕ

abbrev pub set {ℓ} : {A : Type ℓ} → (ℕ → A) → ℕ → A → ℕ → A
set f k v j = if j == k then v else f j

unfoldable pub has : ℕ → List ℕ → Bool
has k [] = false
has k (j ∷ js) = j == k || has k js

-- `list.remove`: the first occurrence.
unfoldable pub remove_first : ℕ → List ℕ → List ℕ
remove_first k [] = []
remove_first k (j ∷ js) = if j == k then js else j ∷ remove_first k js

-- A key that is in the list already keeps its place.
abbrev pub add_key : ℕ → List ℕ → List ℕ
add_key k ks = if has k ks then ks else ks ++ k ∷ []

-- `await runner.stop()`, of a runner if there is one.
unfoldable pub stop_runner : (ℕ → Bool) → Option ℕ → ℕ → Bool
stop_runner alive none = alive
stop_runner alive (some h) = set alive h false

-- The first half of `apply_mapping`, up to the end of `old.stop()`.
unfoldable pub take_old : State → ℕ → State
unfolding stop_runner remove_first
take_old s id = record s {
  runners = set s.runners id none;
  keys = remove_first id s.keys;
  alive = stop_runner s.alive (s.runners id);
}

-- The second half: the new runner is made, registered, and started if the mapping is enabled.
unfoldable pub place_new : State → Mapping → Bool → State
unfolding has
place_new s m starts = record s {
  runners = set s.runners m.id (some s.next);
  keys = add_key m.id s.keys;
  order = add_key m.id s.order;
  alive = set s.alive s.next (m.enabled && starts);
  next = s.next + 1;
}

-- `apply_mapping` that nothing interrupts; `starts` says whether `runner.start()` works.
unfoldable pub apply_mapping : State → Mapping → Bool → State
unfolding take_old place_new
apply_mapping s m starts = place_new (take_old s m.id) m starts

unfoldable pub stop_mapping : State → ℕ → State
unfolding stop_runner
stop_mapping s id = record s { alive = stop_runner s.alive (s.runners id) }

unfoldable pub restart_mapping : State → Mapping → Bool → State
unfolding stop_mapping apply_mapping
restart_mapping s m starts = apply_mapping (stop_mapping s m.id) m starts

unfoldable pub remove_mapping : State → ℕ → State
unfolding take_old remove_first
remove_mapping s id = record (take_old s id) { order = remove_first id s.order }

-- The runners of the keys, stopped one after the other.
unfoldable pub stop_each : (ℕ → Option ℕ) → List ℕ → (ℕ → Bool) → ℕ → Bool
unfolding stop_runner
stop_each runners [] alive = alive
stop_each runners (k ∷ ks) alive = stop_each runners ks (stop_runner alive (runners k))

unfoldable pub stop_all : State → State
unfolding stop_each
stop_all s = record s {
  runners = λ id. none;
  keys = [];
  alive = stop_each s.runners s.keys s.alive;
}

-- A runner that is not started, so that a disabled mapping has a status.
unfoldable pub ensure_stopped_placeholder : State → Mapping → State
unfolding place_new
ensure_stopped_placeholder s m = if has m.id s.keys then s else place_new s m false

-- `starts` says which mappings start.
unfoldable pub start_each : (ℕ → Bool) → List Mapping → State → State
unfolding apply_mapping ensure_stopped_placeholder
start_each starts [] s = s
start_each starts (m ∷ ms) s =
    start_each starts ms
      (if m.enabled then apply_mapping s m (starts m.id) else ensure_stopped_placeholder s m)

abbrev pub ids : List Mapping → List ℕ
ids [] = []
ids (m ∷ ms) = m.id ∷ ids ms

unfoldable pub start_all : State → (ℕ → Bool) → List Mapping → State
unfolding start_each
start_all s starts ms = start_each starts ms (record s { order = ids ms })
