-- ===== src/Notify/Repeat.antt =====
-- app/notify.py: `emit` drops repeats.
use ser2net.Common.{
  ℕ, ◌-◌, ◌*◌, ◌≤◌, ◌<◌, Bool, true, false, not, ◌&&◌, ◌||◌, ◌≡◌, refl, ap, ◌∙◌, inl, inr, some,
  List, [], ◌∷◌, ◌++◌, arith, ltb, leb, ◌⊎◌, length, Bool-cases, if◌then◌else◌,
}
use ser2net.Common.Texts.{same, same_iff, is_one_of}
use Prim.Native.String.{String}
use ser2net.Notify.{
  Settings, Notice, Notifier, queue_size, max_per_minute, second, expire, over_limit, delivered,
  work_on, worker, is_repeat, last_of, put_nowait, emit, Round, Step, emitted, worked, times_of,
  run,
}
use ser2net.Notify.Rate.{IsOrdered}

-- An event of this kind was noted at `t` or later.
abbrev pub IsNoted : String → String → ℕ → Notifier → Type 0
IsNoted event key t n = (u : ℕ) × (last_of event key n.last ≡ some u) × (t ≤ u)

put_nowait-last : (notice : Notice) (n : Notifier) → (put_nowait notice n).0.last ≡ n.last
put_nowait-last notice n = elim (Bool-cases (ltb (length n.queue) queue_size)) [
  | inl e ↦ rw (e) refl
  | inr e ↦ rw (e) refl
]

worker-last : (now : ℕ) (n : Notifier) → (worker now n).0.last ≡ n.last
unfolding worker
worker-last now n = on_queue n.queue
  where
    on_queue : (queue : List Notice) → (work_on now queue n).0.last ≡ n.last
    on_queue [] = refl
    on_queue (notice ∷ queue) =
        either (leb max_per_minute (length (expire now n.sent)))
          (record n { queue = queue; sent = expire now n.sent }, over_limit notice)
          (record n { queue = queue; sent = expire now n.sent ++ (now ∷ []) }, delivered notice)
          refl refl
      where
        either :
            (b : Bool) (x y : Notifier × Round)
            → x.0.last ≡ n.last
            → y.0.last ≡ n.last
            → (if b then x else y).0.last ≡ n.last
        either true x y h h' = h
        either false x y h h' = h'

-- What `emit` does to the last times: nothing, or it notes its own.
emit_cases :
    (s : Settings) (now : ℕ) (event key mapping detail : String) (n : Notifier)
    → ((emit s now event key mapping detail n).0.last ≡ n.last)
      ⊎ ((emit s now event key mapping detail n).0.last ≡ ((event, key), now) ∷ n.last)
unfolding emit
emit_cases s now event key mapping detail n =
    let noted = record n { last = ((event, key), now) ∷ n.last } in
    let notice : Notice = record { event = event; mapping = mapping; detail = detail } in
    either (not s.enabled || not (is_one_of event s.events)) _ (
      either (is_repeat now s.repeat_s (last_of event key n.last)) (put_nowait notice noted)
        (inr (put_nowait-last notice noted)))
  where
    either :
        (b : Bool) (r : Notifier × Bool)
        → (r.0.last ≡ n.last) ⊎ (r.0.last ≡ ((event, key), now) ∷ n.last)
        → ((if b then (n, false) else r).0.last ≡ n.last)
          ⊎ ((if b then (n, false) else r).0.last ≡ ((event, key), now) ∷ n.last)
    either true r other = inl refl
    either false r other = other

last_of_self :
    (event key : String) (now : ℕ) (last : List ((String × String) × ℕ))
    → last_of event key (((event, key), now) ∷ last) ≡ some now
last_of_self event key now last =
    let e = (same_iff event event).1 refl in let k = (same_iff key key).1 refl in rw (e, k) refl

emit-IsNoted :
    (event key : String) (t : ℕ) (s : Settings) (now : ℕ) (event' key' mapping detail : String)
    (n : Notifier)
    → t ≤ now
    → IsNoted event key t n
    → IsNoted event key t (emit s now event' key' mapping detail n).0
emit-IsNoted event key t s now event' key' mapping detail n le (u, e, h) =
    elim (emit_cases s now event' key' mapping detail n) [
      | inl same_last ↦ (u, ap (last_of event key) same_last ∙ e, h)
      | inr noted ↦ elim (Bool-cases (same event' event && same key' key)) [
        | inl m ↦ (now, ap (last_of event key) noted ∙ rw (m) refl, le)
        | inr m ↦ (u, ap (last_of event key) noted ∙ rw (m) e, h)
      ]
    ]

run-IsNoted :
    (event key : String) (t : ℕ) (steps : List Step) (now : ℕ) (n : Notifier) (times : List ℕ)
    → t ≤ now
    → IsOrdered now steps
    → IsNoted event key t n
    → IsNoted event key t (run steps n times).0
unfolding run
run-IsNoted event key t [] now n times le o h = h
run-IsNoted event key t (emitted s later e k mapping detail ∷ steps) now n times le (l, o) h =
    run-IsNoted event key t steps later (emit s later e k mapping detail n).0 times
      (omega (arith, le, l)) o
      (emit-IsNoted event key t s later e k mapping detail n (omega (arith, le, l)) h)
run-IsNoted event key t (worked later ∷ steps) now n times le (l, o) (u, e, h) =
    run-IsNoted event key t steps later (worker later n).0
      (times ++ times_of later (worker later n).1) (omega (arith, le, l)) o
      (u, ap (last_of event key) (worker-last later n) ∙ e, h)

emit-IsNoted_new :
    (s : Settings) (t : ℕ) (event key mapping detail : String) (n : Notifier)
    → (emit s t event key mapping detail n).1 ≡ true
    → IsNoted event key t (emit s t event key mapping detail n).0
unfolding emit
emit-IsNoted_new s t event key mapping detail n h =
    let noted = record n { last = ((event, key), t) ∷ n.last } in
    let notice : Notice = record { event = event; mapping = mapping; detail = detail } in
    either (not s.enabled || not (is_one_of event s.events))
      (if is_repeat t s.repeat_s (last_of event key n.last)
        then (n, false)
        else put_nowait notice noted)
      (either (is_repeat t s.repeat_s (last_of event key n.last)) (put_nowait notice noted) (λ e. (
        t,
        ap (last_of event key) (put_nowait-last notice noted) ∙ last_of_self event key t n.last,
        omega arith,
      )))
      h
  where
    either :
        (b : Bool) (r : Notifier × Bool)
        → (r.1 ≡ true → IsNoted event key t r.0)
        → (if b then (n, false) else r).1 ≡ true
        → IsNoted event key t (if b then (n, false) else r).0
    either true r other e = absurd (cc (e))
    either false r other e = other e

refused :
    (s : Settings) (now : ℕ) (event key mapping detail : String) (n : Notifier) (u : ℕ)
    → last_of event key n.last ≡ some u
    → now - u < s.repeat_s * second
    → emit s now event key mapping detail n ≡ (n, false)
unfolding emit
refused s now event key mapping detail n u e soon =
    let early : ltb (now - u) (s.repeat_s * second) ≡ true = ground (arith, soon) in
    either (not s.enabled || not (is_one_of event s.events)) _ (rw (e, early) refl)
  where
    either :
        (b : Bool) (r : Notifier × Bool)
        → r ≡ (n, false)
        → (if b then (n, false) else r) ≡ (n, false)
    either true r other = refl
    either false r other = other

-- After an event was queued, whatever happens meanwhile, the same event with the same key is not
-- queued again within the repeat time, and nothing changes then.
pub emit_repeat :
    (s s' : Settings) (t now : ℕ) (event key mapping detail mapping' detail' : String)
    (steps : List Step) (n : Notifier) (times : List ℕ)
    → (emit s t event key mapping detail n).1 ≡ true
    → IsOrdered t steps
    → now - t < s'.repeat_s * second
    → let after = (run steps (emit s t event key mapping detail n).0 times).0 in
      emit s' now event key mapping' detail' after ≡ (after, false)
emit_repeat s s' t now event key mapping detail mapping' detail' steps n times h o soon =
    let n0 = (emit s t event key mapping detail n).0 in
    let (u, e, le) =
      run-IsNoted event key t steps t n0 times (omega arith) o
        (emit-IsNoted_new s t event key mapping detail n h) in
    refused s' now event key mapping' detail' (run steps n0 times).0 u e (omega (arith, le, soon))
