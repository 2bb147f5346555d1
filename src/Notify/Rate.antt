-- ===== src/Notify/Rate.antt =====
-- app/notify.py: the limit of `_worker`.
use ser2net.Common.{
  ℕ, suc, ◌+◌, ◌-◌, ◌*◌, ◌≤◌, ◌<◌, Bool, true, false, not, ◌&&◌, ◌||◌, ◌≡◌, refl, sym, ap, ◌∙◌, inl,
  inr, List, [], ◌∷◌, ◌++◌, append_assoc, append-nil, arith, ltb, leb, length, Bool-cases,
  All-append, if◌then◌else◌, All,
}
use mathlib.Core.Path.{subst}
use Prim.Native.String.{String}
use ser2net.Common.Texts.{is_one_of}
use ser2net.Notify.{
  Settings, Notice, Notifier, new_notifier, max_per_minute, second, expire, take_notice, work_on,
  worker, is_repeat, last_of, put_nowait, emit, queue_size, Step, emitted, worked, time_of,
  times_of, run,
}

-- How many of the times are in the minute that starts at `a`.
abbrev pub within_minute : ℕ → List ℕ → ℕ
within_minute a [] = 0
within_minute a (t ∷ times) =
    let rest = within_minute a times in
    if leb a t && leb t (a + 60 * second) then suc rest else rest

-- The steps are in the order of time, from `now` on.
abbrev pub IsOrdered : ℕ → List Step → Type 0
IsOrdered now [] = Unit {0}
IsOrdered now (s ∷ steps) = (now ≤ time_of s) × IsOrdered (time_of s) steps

abbrev IsOver : ℕ → ℕ → Type 0
IsOver now t = t + 60 * second < now

within_minute-append :
    (a : ℕ) (xs ys : List ℕ) → within_minute a (xs ++ ys) ≡ within_minute a xs + within_minute a ys
within_minute-append a [] ys = omega arith
within_minute-append a (x ∷ xs) ys = elim (Bool-cases (leb a x && leb x (a + 60 * second))) [
  | inl e ↦ rw (e) omega (arith, within_minute-append a xs ys)
  | inr e ↦ rw (e) (within_minute-append a xs ys)
]

within_minute-length : (a : ℕ) (xs : List ℕ) → within_minute a xs ≤ length xs
within_minute-length a [] = omega arith
within_minute-length a (x ∷ xs) = elim (Bool-cases (leb a x && leb x (a + 60 * second))) [
  | inl e ↦ rw (e) omega (arith, within_minute-length a xs)
  | inr e ↦ rw (e) omega (arith, within_minute-length a xs)
]

within_minute_over :
    (a now : ℕ) (xs : List ℕ) → now ≤ a + 60 * second → All (IsOver now) xs → within_minute a xs ≡ 0
within_minute_over a now [] h o = refl
within_minute_over a now (x ∷ xs) h o =
    let early : (leb a x && leb x (a + 60 * second)) ≡ false = ground (arith, h, o.0) in
    rw (early) (within_minute_over a now xs h o.1)

-- What was sent over a minute ago, and the rest.
unfoldable pub IsWithin : ℕ → List ℕ → List ℕ → Type 0
IsWithin now sent times =
    ((old : List ℕ) × (times ≡ old ++ sent) × All (IsOver now) old)
    × ((a : ℕ) → within_minute a times ≤ max_per_minute)

expire_splits :
    (now : ℕ) (sent : List ℕ)
    → (old : List ℕ) × (sent ≡ old ++ expire now sent) × All (IsOver now) old
expire_splits now [] = ([], refl, tt)
expire_splits now (t ∷ sent) = elim (Bool-cases (ltb (60 * second) (now - t))) [
  | inl e ↦
      let (old, s, o) = expire_splits now sent in
      let over : t + 60 * second < now = ground (arith, e) in
      (t ∷ old, rw (e) (ap (λ r. t ∷ r) s), (over, o))
  | inr e ↦ ([], rw (e) refl, tt)
]

All-later :
    (now later : ℕ) (xs : List ℕ) → now ≤ later → All (IsOver now) xs → All (IsOver later) xs
All-later now later [] h o = tt
All-later now later (x ∷ xs) h o = (omega (arith, h, o.0), All-later now later xs h o.1)

-- One more time, in a minute of which the earlier times are over.
within_minute_snoc :
    (a now : ℕ) (old sent : List ℕ)
    → All (IsOver now) old
    → length sent < max_per_minute
    → within_minute a (old ++ sent) ≤ max_per_minute
    → within_minute a ((old ++ sent) ++ (now ∷ [])) ≤ max_per_minute
within_minute_snoc a now old sent o l h =
    elim (Bool-cases (leb a now && leb now (a + 60 * second))) [
      | inl e ↦
          let inside : now ≤ a + 60 * second = ground (arith, e) in
          let last : within_minute a (now ∷ []) ≡ 1 = rw (e) refl in
          omega (
            arith,
            within_minute-append a (old ++ sent) (now ∷ []),
            within_minute-append a old sent,
            within_minute_over a now old inside o,
            within_minute-length a sent,
            last,
            l,
          )
      | inr e ↦
          let last : within_minute a (now ∷ []) ≡ 0 = rw (e) refl in
          omega (arith, within_minute-append a (old ++ sent) (now ∷ []), last, h)
    ]

worker-IsWithin :
    (now later : ℕ) (n : Notifier) (times : List ℕ)
    → now ≤ later
    → IsWithin now n.sent times
    → IsWithin later (worker later n).0.sent (times ++ times_of later (worker later n).1)
unfolding worker IsWithin
worker-IsWithin now later n times le ((old, s, o), w) = on_queue n.queue
  where
    unchanged : IsWithin later n.sent (times ++ [])
    unchanged = rw (append-nil times) ((old, s, All-later now later old le o), w)

    split :
        (old' : List ℕ)
        → n.sent ≡ old' ++ expire later n.sent
        → times ≡ (old ++ old') ++ expire later n.sent
    split old' s' = s ∙ ap (λ r. old ++ r) s' ∙ sym (append_assoc old old' (expire later n.sent))

    bounded :
        (a : ℕ) (old' : List ℕ)
        → n.sent ≡ old' ++ expire later n.sent
        → All (IsOver later) (old ++ old')
        → length (expire later n.sent) < max_per_minute
        → within_minute a (times ++ (later ∷ [])) ≤ max_per_minute
    bounded a old' s' gone l =
        let joined = split old' s' in
        subst (λ r. within_minute a (r ++ (later ∷ [])) ≤ max_per_minute) (sym joined)
          (within_minute_snoc a later (old ++ old') (expire later n.sent) gone l
            (subst (λ r. within_minute a r ≤ max_per_minute) joined (w a)))

    taken :
        (notice : Notice) (queue : List Notice) (old' : List ℕ)
        → n.sent ≡ old' ++ expire later n.sent
        → All (IsOver later) old'
        → IsWithin later
            (take_notice later notice queue n).0.sent
            (times ++ times_of later (take_notice later notice queue n).1)
    taken notice queue old' s' o' =
        let gone = All-append (IsOver later) old old' (All-later now later old le o) o' in
        elim (Bool-cases (leb max_per_minute (length (expire later n.sent)))) [
          | inl e ↦ rw (e, append-nil times) ((old ++ old', split old' s', gone), w)
          | inr e ↦ rw (e) (
            (
              old ++ old',
              ap (λ r. r ++ (later ∷ [])) (split old' s')
                  ∙ append_assoc (old ++ old') (expire later n.sent) (later ∷ []),
              gone,
            ),
            λ a. bounded a old' s' gone (ground (arith, e)),
          )
        ]

    on_queue :
        (queue : List Notice)
        → IsWithin later
            (work_on later queue n).0.sent
            (times ++ times_of later (work_on later queue n).1)
    on_queue [] = unchanged
    on_queue (notice ∷ queue) =
        let (old', s', o') = expire_splits later n.sent in taken notice queue old' s' o'

put_nowait-sent : (notice : Notice) (n : Notifier) → (put_nowait notice n).0.sent ≡ n.sent
put_nowait-sent notice n = elim (Bool-cases (ltb (length n.queue) queue_size)) [
  | inl e ↦ rw (e) refl
  | inr e ↦ rw (e) refl
]

emit-sent :
    (s : Settings) (now : ℕ) (event key mapping detail : String) (n : Notifier)
    → (emit s now event key mapping detail n).0.sent ≡ n.sent
unfolding emit
emit-sent s now event key mapping detail n =
    let noted = record n { last = ((event, key), now) ∷ n.last } in
    let notice : Notice = record { event = event; mapping = mapping; detail = detail } in
    either (not s.enabled || not (is_one_of event s.events)) _ (
      either (is_repeat now s.repeat_s (last_of event key n.last)) (put_nowait notice noted)
        (put_nowait-sent notice noted))
  where
    either :
        (b : Bool) (r : Notifier × Bool)
        → r.0.sent ≡ n.sent
        → (if b then (n, false) else r).0.sent ≡ n.sent
    either true r other = refl
    either false r other = other

run-IsWithin :
    (steps : List Step) (now : ℕ) (n : Notifier) (times : List ℕ)
    → IsOrdered now steps
    → IsWithin now n.sent times
    → (a : ℕ) → within_minute a (run steps n times).1 ≤ max_per_minute
unfolding run IsWithin
run-IsWithin [] now n times o (h, w) a = w a
run-IsWithin (emitted s later event key mapping detail ∷ steps) now n times (le, o) ((old, e, g), w)
      a =
    let n' = (emit s later event key mapping detail n).0 in
    run-IsWithin steps later n' times o
      (
        (
          old,
          e ∙ ap (λ r. old ++ r) (sym (emit-sent s later event key mapping detail n)),
          All-later now later old le g,
        ),
        w,
      )
      a
run-IsWithin (worked later ∷ steps) now n times (le, o) h a =
    run-IsWithin steps later (worker later n).0 (times ++ times_of later (worker later n).1) o
      (worker-IsWithin now later n times le h) a

-- However events are emitted, and whenever the worker comes to them, in no 60 seconds more than
-- MAX_PER_MINUTE notifications are delivered, if the clock never goes back.
pub run_limit :
    (steps : List Step)
    → IsOrdered 0 steps
    → (a : ℕ) → within_minute a (run steps new_notifier []).1 ≤ max_per_minute
unfolding IsWithin
run_limit steps o = run-IsWithin steps 0 new_notifier [] o (([], refl, tt), λ a. omega arith)
