-- ===== src/Supervisor/Tests.antt =====
-- Concrete mappings and operations, for the theorems about app/engine/supervisor.py.
use ser2net.Common.{◌≡◌, refl, true, false, some, [], ◌∷◌}
use ser2net.Supervisor.{Mapping, State}
use ser2net.Supervisor.Tracked.{IsTracked}
use ser2net.Supervisor.History.{
  apply, restart, remove, new_supervisor, perform_all, perform_all-IsTracked,
}
use ser2net.Supervisor.Orphans.{IsOrphan, overlap, overlap-IsOrphan}

abbrev seven : Mapping
seven = record { id = 7; enabled = true }

perform_all-IsTracked_example :
    IsTracked (perform_all new_supervisor (apply seven true ∷ restart seven false ∷ remove 7 ∷ []))
perform_all-IsTracked_example =
    perform_all-IsTracked (apply seven true ∷ restart seven false ∷ remove 7 ∷ [])

abbrev started : State
started = perform_all new_supervisor (apply seven true ∷ [])

seven_runs : started.runners 7 ≡ some 0
unfolding perform_all new_supervisor
seven_runs = refl

overlap-IsOrphan_example : IsOrphan (overlap started seven seven true true) started.next
overlap-IsOrphan_example =
    overlap-IsOrphan started seven seven true 0 (perform_all-IsTracked (apply seven true ∷ []))
      seven_runs refl refl
