-- ===== src/Supervisor/History.antt =====
-- app/engine/supervisor.py: sequences of operations, each of which ends before the next begins.
use ser2net.Common.{
  ℕ, ◌≡◌, refl, ◌∙◌, ◌≢◌, inl, inr, Bool, false, ◌&&◌, none, some, List, [], ◌∷◌, arith,
  if◌then◌else◌, Bool-cases, if-elim, Option-cases,
}
use ser2net.Supervisor.{
  Mapping, State, set, has, take_old, place_new, apply_mapping, stop_mapping, restart_mapping,
  remove_mapping, stop_all, ensure_stopped_placeholder, start_each, start_all,
}
use ser2net.Supervisor.Tracked.{
  IsTracked, set_other, set_same, stopped_lem, place_new-IsTracked, apply_mapping-IsTracked,
  stop_mapping-IsTracked, remove_mapping-IsTracked, stop_all-IsTracked,
}

pub data Op : Type 0 where
  apply restart : Mapping → Bool → Op
  stop remove : ℕ → Op
  stop_everything : Op
  start_everything : (ℕ → Bool) → List Mapping → Op

unfoldable pub perform : State → Op → State
unfolding apply_mapping restart_mapping stop_mapping remove_mapping stop_all start_all
perform s (apply m starts) = apply_mapping s m starts
perform s (restart m starts) = restart_mapping s m starts
perform s (stop id) = stop_mapping s id
perform s (remove id) = remove_mapping s id
perform s stop_everything = stop_all s
perform s (start_everything starts ms) = start_all s starts ms

unfoldable pub perform_all : State → List Op → State
unfolding perform
perform_all s [] = s
perform_all s (op ∷ ops) = perform_all (perform s op) ops

-- No mapping has a runner.
unfoldable pub new_supervisor : State
new_supervisor = record {
  runners = λ id. none;
  keys = [];
  order = [];
  alive = λ h. false;
  next = 0;
}

pub new_supervisor-IsTracked : IsTracked new_supervisor
unfolding new_supervisor
new_supervisor-IsTracked = record {
  tracked = λ h alive. absurd (cc);
  keyed = λ id h found. absurd (cc);
  fresh = λ id h found. absurd (cc);
}

-- Without a key there is no runner.
unkeyed : (s : State) (id : ℕ) → IsTracked s → has id s.keys ≡ false → s.runners id ≡ none
unkeyed s id v absent = elim (Option-cases (s.runners id)) [
  | inl free ↦ free
  | inr (h, found) ↦ absurd (let present = v.keyed id h found in cc)
]

ensure-IsTracked :
    (s : State) (m : Mapping) → IsTracked s → IsTracked (ensure_stopped_placeholder s m)
unfolding ensure_stopped_placeholder
ensure-IsTracked s m v =
    if-elim IsTracked (has m.id s.keys) (λ _. v)
      (λ absent. place_new-IsTracked s m false (unkeyed s m.id v absent) v)

start_each-IsTracked :
    (starts : ℕ → Bool) (ms : List Mapping) (s : State)
    → IsTracked s
    → IsTracked (start_each starts ms s)
unfolding start_each
start_each-IsTracked starts [] s v = v
start_each-IsTracked starts (m ∷ ms) s v =
    start_each-IsTracked starts ms
      (if m.enabled then apply_mapping s m (starts m.id) else ensure_stopped_placeholder s m)
      (if-elim IsTracked m.enabled (λ _. apply_mapping-IsTracked s m (starts m.id) v)
        (λ _. ensure-IsTracked s m v))

perform-IsTracked : (s : State) (op : Op) → IsTracked s → IsTracked (perform s op)
unfolding perform restart_mapping start_all
perform-IsTracked s (apply m starts) v = apply_mapping-IsTracked s m starts v
perform-IsTracked s (restart m starts) v =
    apply_mapping-IsTracked (stop_mapping s m.id) m starts (stop_mapping-IsTracked s m.id v)
perform-IsTracked s (stop id) v = stop_mapping-IsTracked s id v
perform-IsTracked s (remove id) v = remove_mapping-IsTracked s id v
perform-IsTracked s stop_everything v = stop_all-IsTracked s v
perform-IsTracked s (start_everything starts ms) v =
    start_each-IsTracked starts ms _
      (record { tracked = v.tracked; keyed = v.keyed; fresh = v.fresh })

perform_all_keeps : (s : State) (ops : List Op) → IsTracked s → IsTracked (perform_all s ops)
unfolding perform_all
perform_all_keeps s [] v = v
perform_all_keeps s (op ∷ ops) v = perform_all_keeps (perform s op) ops (perform-IsTracked s op v)

-- From a new supervisor on, after any operations that do not overlap, every running runner is in
-- the dict under some mapping, every mapping of the dict has its key, and no runner of the dict is
-- one that a later operation will make.
pub perform_all-IsTracked : (ops : List Op) → IsTracked (perform_all new_supervisor ops)
perform_all-IsTracked ops = perform_all_keeps new_supervisor ops new_supervisor-IsTracked

-- Applying a mapping replaces its runner: the new one is in the dict and runs exactly if the
-- mapping is enabled and starts, the old one does not run, and the other mappings keep theirs.
pub apply_mapping-replaces :
    (s : State) (m : Mapping) (starts : Bool)
    → IsTracked s
    → let s' = apply_mapping s m starts in
      (s'.runners m.id ≡ some s.next)
      × (s'.alive s.next ≡ (m.enabled && starts))
      × ((h : ℕ) → s.runners m.id ≡ some h → s'.alive h ≡ false)
      × ((id : ℕ) → id ≢ m.id → s'.runners id ≡ s.runners id)
unfolding apply_mapping place_new take_old
apply_mapping-replaces s m starts v = (
  set_same (set s.runners m.id none) m.id (some s.next) m.id refl,
  set_same (take_old s m.id).alive s.next (m.enabled && starts) s.next refl,
  (λ h found.
      let lt = v.fresh m.id h found in
      set_other (take_old s m.id).alive s.next (m.enabled && starts) h (λ e. omega arith)
      ∙ stopped h found),
  λ id ne.
      set_other (set s.runners m.id none) m.id (some s.next) id ne
      ∙ set_other s.runners m.id none id ne,
)
  where
    stopped : (h : ℕ) → s.runners m.id ≡ some h → (take_old s m.id).alive h ≡ false
    stopped h found = elim (Bool-cases ((take_old s m.id).alive h)) [
      | inl alive ↦ absurd ((stopped_lem s.alive (s.runners m.id) h alive).1 found)
      | inr dead ↦ dead
    ]
