-- ===== src/Supervisor/Orphans.antt =====
-- app/engine/supervisor.py: two applications of one mapping that overlap. `apply_mapping` takes
-- the old runner out of the dict, waits for it to stop, and registers the new one without
-- looking at the dict again.
use ser2net.Common.{
  ℕ, ◌+◌, ◌<◌, ◌≡◌, refl, sym, ◌∙◌, ◌≢◌, inl, inr, Bool, true, ◌&&◌, Option, none, some, arith,
  ◌==◌, Bool-cases,
}
use ser2net.Supervisor.{Mapping, State, set, take_old, place_new, apply_mapping}
use ser2net.Supervisor.Tracked.{IsTracked, set_other, set_same, take_old-IsTracked}

-- A running runner that is in the dict under no mapping.
abbrev pub IsOrphan : State → ℕ → Type 0
IsOrphan s h = (s.alive h ≡ true) × ((id : ℕ) → s.runners id ≢ some h)

-- The second application runs as a whole while the first one waits for an old runner to stop.
unfoldable pub interleaved : State → Mapping → Mapping → Bool → Bool → State
unfolding take_old place_new
interleaved s first second first_starts second_starts =
    place_new (place_new (take_old (take_old s first.id) second.id) second second_starts) first
      first_starts

-- Where the first one finds no old runner, it does not wait before its runner is registered, and
-- the second one comes after it.
abbrev pub overlap_at : Option ℕ → State → Mapping → Mapping → Bool → Bool → State
overlap_at none s first second first_starts second_starts =
    apply_mapping (apply_mapping s first first_starts) second second_starts
overlap_at (some old) s first second first_starts second_starts =
    interleaved s first second first_starts second_starts

-- A second application that comes as soon as the first one waits.
unfoldable pub overlap : State → Mapping → Mapping → Bool → Bool → State
unfolding apply_mapping interleaved
overlap s first second = overlap_at (s.runners first.id) s first second

interleaved-IsOrphan :
    (s : State) (first second : Mapping) (first_starts : Bool)
    → IsTracked s
    → first.id ≡ second.id
    → second.enabled ≡ true
    → IsOrphan (interleaved s first second first_starts true) s.next
unfolding interleaved place_new
interleaved-IsOrphan s first second first_starts v same enabled = (
  set_other (set t.alive t.next (second.enabled && true)) (t.next + 1)
        (first.enabled && first_starts) t.next (λ e. omega arith)
      ∙ set_same t.alive t.next (second.enabled && true) t.next refl
      ∙ ground arith,
  λ id found. elim (Bool-cases (id == first.id)) [
    | inl here ↦
        let e : id ≡ first.id = ground arith in
        let e' : some (t.next + 1) ≡ some s.next =
          sym (set_same (set t.runners second.id (some t.next)) first.id (some (t.next + 1)) id e)
          ∙ found in
        let e'' : t.next + 1 ≡ s.next = cc in omega arith
    | inr there ↦
        let ne : id ≢ first.id = λ e. ground arith in
        let ne' : id ≢ second.id = λ e. ground arith in
        let was : t.runners id ≡ some s.next =
          sym (set_other t.runners second.id (some t.next) id ne')
          ∙ sym
              (set_other (set t.runners second.id (some t.next)) first.id (some (t.next + 1)) id ne)
          ∙ found in
        let lt : s.next < t.next = w.fresh id s.next was in omega arith
  ],
)
  where
    t : State
    t = take_old (take_old s first.id) second.id

    w : IsTracked t
    w = take_old-IsTracked (take_old s first.id) second.id (take_old-IsTracked s first.id v)

-- When the dict has a runner of a mapping, an application of the mapping waits for it to stop, and an
-- enabled mapping of the same id is applied meanwhile and starts, then the runner of the second
-- application goes on running and is in the dict under no mapping, whether or not the first
-- application then starts its own.
pub overlap-IsOrphan :
    (s : State) (first second : Mapping) (first_starts : Bool) (old : ℕ)
    → IsTracked s
    → s.runners first.id ≡ some old
    → first.id ≡ second.id
    → second.enabled ≡ true
    → IsOrphan (overlap s first second first_starts true) s.next
unfolding overlap
overlap-IsOrphan s first second first_starts old v has_old same enabled =
    rw has_old (interleaved-IsOrphan s first second first_starts v same enabled)
