-- ===== src/Notify/Tests.antt =====
-- Notifications at concrete times.
use ser2net.Common.{ℕ, ◌*◌, ◌≤◌, true, false, ◌≡◌, refl, List, [], ◌∷◌, arith}
use ser2net.Notify.{
  Settings, new_notifier, max_per_minute, second, emit, worker, Step, emitted, worked, run,
}
use ser2net.Notify.Rate.{within_minute, IsOrdered, run_limit}
use ser2net.Notify.Repeat.{emit_repeat}

abbrev device_events : Settings
device_events = record {
  enabled = true;
  events = "device_lost" ∷ "device_back" ∷ [];
  repeat_s = 300;
}

abbrev lost_at : ℕ → Step
lost_at now = emitted device_events now "device_lost" "m1" "plant" "/dev/ttyS0"

abbrev back_at : ℕ → Step
back_at now = emitted device_events now "device_back" "m1" "plant" "/dev/ttyS0"

-- The second loss is a repeat: two notices are delivered.
abbrev lost_and_back : List Step
lost_and_back =
    lost_at (10 * second)
    ∷ worked (10 * second)
    ∷ back_at (20 * second)
    ∷ lost_at (30 * second)
    ∷ worked (40 * second)
    ∷ worked (50 * second)
    ∷ []

two_delivered : (run lost_and_back new_notifier []).1 ≡ (10 * second) ∷ (40 * second) ∷ []
unfolding run emit worker
two_delivered = refl

in_order : IsOrdered 0 lost_and_back
in_order =
    (omega arith, (omega arith, (omega arith, (omega arith, (omega arith, (omega arith, tt))))))

run_limit_example :
    within_minute (5 * second) (run lost_and_back new_notifier []).1 ≤ max_per_minute
run_limit_example = run_limit lost_and_back in_order (5 * second)

first_queued :
    (emit device_events (10 * second) "device_lost" "m1" "plant" "" new_notifier).1 ≡ true
unfolding emit
first_queued = refl

abbrev meanwhile : List Step
meanwhile = worked (10 * second) ∷ back_at (20 * second) ∷ []

emit_repeat_example :
    let after =
      (run meanwhile
        (emit device_events (10 * second) "device_lost" "m1" "plant" "" new_notifier).0
        []).0 in
    emit device_events (30 * second) "device_lost" "m1" "plant" "" after ≡ (after, false)
emit_repeat_example =
    emit_repeat device_events device_events (10 * second) (30 * second) "device_lost" "m1" "plant"
      "" "plant" "" meanwhile new_notifier [] first_queued (omega arith, (omega arith, tt))
      (omega arith)
