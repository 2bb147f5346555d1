-- ===== src/Notify.antt =====
-- app/notify.py: the queue of notifications and the limit on what is sent. A time is that of the
-- monotonic clock at a step, in nanoseconds; what a delivery does is outside the program.
pub mod Rate
pub mod Repeat
mod Tests
use ser2net.Common.{
  ℕ, ◌-◌, ◌*◌, Bool, true, false, not, ◌&&◌, ◌||◌, Option, none, some, List, [], ◌∷◌, ◌++◌, ltb,
  leb, length, if◌then◌else◌,
}
use ser2net.Common.Texts.{same, is_one_of}
use Prim.Native.String.{String}

abbrev pub max_per_minute : ℕ
max_per_minute = 20

-- In the unit of the clock.
abbrev pub second : ℕ
second = 1000000000

abbrev pub queue_size : ℕ
queue_size = 200

-- What `emit` reads of the settings of notifications.
pub record Settings : Type 0 where
  pub enabled : Bool
  pub events : List String
  pub repeat_s : ℕ

pub record Notice : Type 0 where
  pub event : String
  pub mapping : String
  pub detail : String

-- `last` has the newest entry of a key first.
pub record Notifier : Type 0 where
  pub queue : List Notice
  pub last : List ((String × String) × ℕ)
  pub sent : List ℕ

abbrev pub new_notifier : Notifier
new_notifier = record { queue = []; last = []; sent = [] }

abbrev pub last_of : String → String → List ((String × String) × ℕ) → Option ℕ
last_of event key [] = none
last_of event key (((e, k), t) ∷ last) =
    let rest = last_of event key last in if same e event && same k key then some t else rest

abbrev pub is_repeat : ℕ → ℕ → Option ℕ → Bool
is_repeat now repeat_s none = false
is_repeat now repeat_s (some t) = ltb (now - t) (repeat_s * second)

abbrev pub put_nowait : Notice → Notifier → Notifier × Bool
put_nowait notice n =
    if ltb (length n.queue) queue_size
    then (record n { queue = n.queue ++ (notice ∷ []) }, true)
    else (n, false)

unfoldable pub emit : Settings → ℕ → String → String → String → String → Notifier → Notifier × Bool
emit s now event key mapping detail n =
    if not s.enabled || not (is_one_of event s.events)
    then (n, false)
    else if is_repeat now s.repeat_s (last_of event key n.last)
    then (n, false)
    else put_nowait (record { event = event; mapping = mapping; detail = detail })
        (record n { last = ((event, key), now) ∷ n.last })

-- What is left of the times of the last minute.
abbrev pub expire : ℕ → List ℕ → List ℕ
expire now [] = []
expire now (t ∷ sent) =
    let rest = expire now sent in if ltb (60 * second) (now - t) then rest else t ∷ sent

-- One round of `_worker`.
pub data Round : Type 0 where
  waiting : Round
  over_limit : Notice → Round
  delivered : Notice → Round

abbrev pub take_notice : ℕ → Notice → List Notice → Notifier → Notifier × Round
take_notice now notice queue n =
    let sent = expire now n.sent in
    if leb max_per_minute (length sent)
    then (record n { queue = queue; sent = sent }, over_limit notice)
    else (record n { queue = queue; sent = sent ++ (now ∷ []) }, delivered notice)

abbrev pub work_on : ℕ → List Notice → Notifier → Notifier × Round
work_on now [] n = (n, waiting)
work_on now (notice ∷ queue) n = take_notice now notice queue n

unfoldable pub worker : ℕ → Notifier → Notifier × Round
worker now n = work_on now n.queue n

-- The watcher and the handlers emit, the worker works, at a time.
pub data Step : Type 0 where
  emitted : Settings → ℕ → String → String → String → String → Step
  worked : ℕ → Step

abbrev pub time_of : Step → ℕ
time_of (emitted s now event key mapping detail) = now
time_of (worked now) = now

abbrev pub times_of : ℕ → Round → List ℕ
times_of now waiting = []
times_of now (over_limit notice) = []
times_of now (delivered notice) = now ∷ []

-- The notifier after some steps, and when it delivered.
unfoldable pub run : List Step → Notifier → List ℕ → Notifier × List ℕ
unfolding emit worker
run [] n times = (n, times)
run (emitted s now event key mapping detail ∷ steps) n times =
    run steps (emit s now event key mapping detail n).0 times
run (worked now ∷ steps) n times =
    let (n', round) = worker now n in run steps n' (times ++ times_of now round)
