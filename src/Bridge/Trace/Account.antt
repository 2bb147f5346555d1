-- ===== src/Bridge/Trace/Account.antt =====
-- app/engine/bridge.py, `Tracer`: the bytes offered to a trace.
use ser2net.Common.{
  ℕ, ◌+◌, ◌≤◌, ◌≡◌, refl, ap, true, not, ◌||◌, List, [], ◌∷◌, ◌++◌, arith, ltb, ◌==◌, if-elim,
  length,
}
use ser2net.Bridge.Trace.{
  Chunk, Tracer, Entry, notice, line, queue_max_bytes, write, fetch, emit, emit_from,
}

abbrev pub bytes_of : List Chunk → ℕ
bytes_of [] = 0
bytes_of (c ∷ rest) = length c.content + bytes_of rest

bytes_of-append : (xs ys : List Chunk) → bytes_of (xs ++ ys) ≡ bytes_of xs + bytes_of ys
bytes_of-append [] ys = omega arith
bytes_of-append (c ∷ xs) ys = omega (arith, bytes_of-append xs ys)

-- The counter of queued bytes is right, and within the limit.
pub record IsCounted (t : Tracer) : Type 0 where
  pub open_file : t.is_open ≡ true
  pub counted : t.queued ≡ bytes_of t.batch + bytes_of t.queue
  pub limited : t.queued ≤ queue_max_bytes

-- The event loop offers chunks, the writer thread takes and writes them.
pub data Event : Type 0 where
  offered : Chunk → Event
  fetched emitted : Event

unfoldable pub react : Tracer → Event → Tracer × List Entry
unfolding write fetch emit
react t (offered c) = (write t c, [])
react t fetched = (fetch t, [])
react t emitted = emit t

-- The bytes that an entry accounts for, and those that an event offers.
abbrev pub told : List Entry → ℕ
told [] = 0
told (notice n ∷ rest) = n + told rest
told (line c ∷ rest) = length c.content + told rest

abbrev pub offer : Event → ℕ
offer (offered c) = length c.content
offer fetched = 0
offer emitted = 0

told-append : (xs ys : List Entry) → told (xs ++ ys) ≡ told xs + told ys
told-append [] ys = omega arith
told-append (notice n ∷ xs) ys = omega (arith, told-append xs ys)
told-append (line c ∷ xs) ys = omega (arith, told-append xs ys)

-- One event keeps the counter right and loses no byte.
abbrev Step : Tracer → ℕ → Tracer × List Entry → Type 0
Step t n r = IsCounted r.0 × (told r.1 + r.0.dropped + r.0.queued ≡ t.dropped + t.queued + n)

write-Step : (t : Tracer) (c : Chunk) → IsCounted t → Step t (length c.content) (write t c, [])
unfolding write
write-Step t c v =
    if-elim (λ t'. Step t (length c.content) (t', [])) (not t.is_open || length c.content == 0)
      (λ skipped. (v, let o = v.open_file in ground arith))
      λ _.
        if-elim (λ t'. Step t (length c.content) (t', []))
          (ltb queue_max_bytes (t.queued + length c.content))
          (λ over. (
            record { open_file = v.open_file; counted = v.counted; limited = v.limited },
            omega arith,
          ))
          (λ fits. (
            record {
              open_file = v.open_file;
              counted = omega (arith, v.counted, bytes_of-append t.queue (c ∷ []));
              limited = ground arith;
            },
            omega arith,
          ))

fetch-Step : (t : Tracer) → IsCounted t → Step t 0 (fetch t, [])
fetch-Step t v = taken t.queue refl
  where
    taken : (items : List Chunk) → t.queue ≡ items → Step t 0 (fetch t, [])
    taken [] e = let same : fetch t ≡ t = unfold fetch in rw e in rw same (v, omega arith)
    taken (c ∷ rest) e =
        let moved : fetch t ≡ record t { queue = rest; batch = t.batch ++ c ∷ [] } =
          unfold fetch in rw e in
        rw moved (
          record {
            open_file = v.open_file;
            counted =
                let size : bytes_of t.queue ≡ length c.content + bytes_of rest = ap bytes_of e in
                omega (arith, v.counted, bytes_of-append t.batch (c ∷ []));
            limited = v.limited;
          },
          omega arith,
        )

emit_from-Step :
    (t : Tracer) (items : List Chunk) → t.batch ≡ items → IsCounted t → Step t 0 (emit_from t items)
unfolding emit_from
emit_from-Step t [] e v = (v, omega arith)
emit_from-Step t (c ∷ rest) e v =
    let size : bytes_of t.batch ≡ length c.content + bytes_of rest = ap bytes_of e in
    (
      record {
        open_file = v.open_file;
        counted = omega (arith, v.counted);
        limited = omega (arith, v.limited);
      },
      ground (arith, v.counted),
    )

react-Step : (t : Tracer) (e : Event) → IsCounted t → Step t (offer e) (react t e)
unfolding react emit
react-Step t (offered c) v = write-Step t c v
react-Step t fetched v = fetch-Step t v
react-Step t emitted v = emit_from-Step t t.batch refl v

unfoldable pub run_trace : Tracer → List Event → Tracer × List Entry
unfolding react
run_trace t [] = (t, [])
run_trace t (e ∷ events) =
    let (t', out) = react t e in let (t'', more) = run_trace t' events in (t'', out ++ more)

abbrev pub offers : List Event → ℕ
offers [] = 0
offers (e ∷ events) = offer e + offers events

-- Over any history of an open trace whose counter is right, the counter stays right and within
-- its limit; and the bytes offered are those written, those reported as dropped, those dropped
-- since the last line, and those still queued.
pub run-accounts :
    (t : Tracer) (events : List Event)
    → IsCounted t
    → let r = run_trace t events in
      IsCounted r.0 × (told r.1 + r.0.dropped + r.0.queued ≡ t.dropped + t.queued + offers events)
unfolding run_trace
run-accounts t [] v = (v, omega arith)
run-accounts t (e ∷ events) v =
    let (v', once) = react-Step t e v in
    let (v'', later) = run-accounts (react t e).0 events v' in
    (v'', omega (arith, once, later, told-append (react t e).1 (run_trace (react t e).0 events).1))
