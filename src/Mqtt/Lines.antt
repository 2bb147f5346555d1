-- ===== src/Mqtt/Lines.antt =====
-- app/engine/mqtt_pub.py, `feed`: the messages for a stream that is cut into reads.
use mathlib.Core.List.{flatten}
use mathlib.Core.Path.{subst}
use ser2net.Common.{
  ℕ, zero, suc, ◌≤◌, ◌≡◌, refl, ◌∙◌, ◌≢◌, inl, inr, true, none, some, List, [], ◌∷◌, ◌++◌, arith,
  ◌==◌, Bool-cases, Option-cases, length,
}
use ser2net.Mqtt.{
  newline, max_line_buffer, Publisher, find_newline, rstrip, publish, drain_lines, bounded, feed,
  feed_all,
}
use ser2net.Mqtt.Split.{split, split-newline, split_other, split-append, Found, find_newline-Found}

-- The messages for lines.
unfoldable pub messages : List (List ℕ) → List (List ℕ)
unfolding rstrip
messages [] = []
messages (line ∷ lines) = publish (rstrip line) (messages lines)

-- No line grows beyond the buffer.
abbrev pub Fits : List ℕ → List ℕ → Type 0
Fits start [] = length start ≤ max_line_buffer
Fits start (b ∷ bytes) =
    (length start ≤ max_line_buffer)
    × (b ≡ newline → Fits [] bytes)
    × (b ≢ newline → Fits (start ++ b ∷ []) bytes)

drain_lines-end :
    (fuel : ℕ) (buf : List ℕ) → find_newline buf ≡ none → drain_lines (suc fuel) buf ≡ ([], buf)
unfolding drain_lines
drain_lines-end fuel buf h = rw (h, drain_lines)

drain_lines-next :
    (fuel : ℕ) (buf line rest : List ℕ)
    → find_newline buf ≡ some (line, rest)
    → drain_lines (suc fuel) buf
      ≡ (publish (rstrip line) (drain_lines fuel rest).0, (drain_lines fuel rest).1)
unfolding drain_lines
drain_lines-next fuel buf line rest h = rw (h, drain_lines)

messages-cons :
    (line : List ℕ) (lines : List (List ℕ))
    → messages (line ∷ lines) ≡ publish (rstrip line) (messages lines)
unfolding messages
messages-cons line lines = refl

messages-nil : messages [] ≡ []
unfolding messages
messages-nil = refl

split-nil : (start : List ℕ) → split start [] ≡ ([], start)
unfolding split
split-nil start = refl

drain_lines-split :
    (fuel : ℕ) (buf : List ℕ)
    → length buf ≤ fuel
    → drain_lines fuel buf ≡ (messages (split [] buf).0, (split [] buf).1)
drain_lines-split zero [] h = rw (split-nil [], messages-nil) (unfold drain_lines in refl)
drain_lines-split zero (b ∷ buf) h = absurd (omega arith)
drain_lines-split (suc fuel) buf h =
    let found = find_newline-Found [] buf in
    let later = λ (rest : List ℕ) (h : length rest ≤ fuel). drain_lines-split fuel rest h in
    elim (Option-cases (find_newline buf)) [
      | inl absent ↦
          rw (drain_lines-end fuel buf absent, subst (Found [] buf) absent found, messages-nil)
      | inr ((line, rest), there) ↦
          let (lines, small) = subst (Found [] buf) there found in
          rw (
            drain_lines-next fuel buf line rest there,
            lines,
            later rest (omega arith),
            messages-cons line (split [] rest).0,
          )
    ]

messages-append : (xs ys : List (List ℕ)) → messages (xs ++ ys) ≡ messages xs ++ messages ys
messages-append [] ys = rw messages-nil
messages-append (line ∷ xs) ys =
    rw (messages-cons line (xs ++ ys), messages-cons line xs, messages-append xs ys)
      (published (rstrip line))
  where
    published :
        (l : List ℕ)
        → publish l (messages xs ++ messages ys) ≡ publish l (messages xs) ++ messages ys
    published [] = refl
    published (b ∷ l) = refl

-- The buffer holds no newline.
abbrev IsPartial : List ℕ → Type 0
IsPartial start = split [] start ≡ ([], start)

split-IsPartial : (start bytes : List ℕ) → IsPartial start → IsPartial (split start bytes).1
split-IsPartial start [] h = rw (split-nil start) h
split-IsPartial start (b ∷ bytes) h =
    let fresh = split-IsPartial [] bytes (split-nil []) in
    let longer = split-IsPartial (start ++ b ∷ []) bytes in
    elim (Bool-cases (b == newline)) [
      | inl ends ↦ rw (split-newline start bytes b ends) fresh
      | inr goes ↦ rw (split_other start bytes b goes) (
          longer (
            split-append [] start (b ∷ [])
            ∙ rw (h, split_other start [] b goes, split-nil (start ++ b ∷ []))))
    ]

Fits-split :
    (start bytes : List ℕ) → Fits start bytes → length (split start bytes).1 ≤ max_line_buffer
Fits-split start [] h = rw (split-nil start) h
Fits-split start (b ∷ bytes) (_, ended, going) =
    let fresh = λ (h : Fits [] bytes). Fits-split [] bytes h in
    let longer = λ (h : Fits (start ++ b ∷ []) bytes). Fits-split (start ++ b ∷ []) bytes h in
    elim (Bool-cases (b == newline)) [
      | inl ends ↦ rw (split-newline start bytes b ends) (fresh (ended (ground arith)))
      | inr goes ↦ rw (split_other start bytes b goes) (longer (going (λ e. ground arith)))
    ]

Fits-start : (start bytes : List ℕ) → Fits start bytes → length start ≤ max_line_buffer
Fits-start start [] h = h
Fits-start start (b ∷ bytes) (small, ended, going) = small

Fits-append :
    (start xs ys : List ℕ) → Fits start (xs ++ ys) → Fits start xs × Fits (split start xs).1 ys
Fits-append start [] ys h = (Fits-start start ys h, rw (split-nil start) h)
Fits-append start (b ∷ xs) ys (small, ended, going) =
    let fresh = λ (h : Fits [] (xs ++ ys)). Fits-append [] xs ys h in
    let longer = λ (h : Fits (start ++ b ∷ []) (xs ++ ys)). Fits-append (start ++ b ∷ []) xs ys h in
    (
      (small, (λ e. (fresh (ended e)).0), (λ e. (longer (going e)).0)),
      elim (Bool-cases (b == newline)) [
        | inl ends ↦ rw (split-newline start xs b ends) (fresh (ended (ground arith))).1
        | inr goes ↦ rw (split_other start xs b goes) (longer (going (λ e. ground arith))).1
      ],
    )

bounded_lem : (buf : List ℕ) → length buf ≤ max_line_buffer → bounded buf ≡ buf
bounded_lem buf h = ground arith

-- One read, when the buffer is the start of a line.
feed_lem :
    (p : Publisher) (bytes : List ℕ)
    → p.connected ≡ true
    → IsPartial p.buf
    → Fits p.buf bytes
    → feed p bytes ≡ (record p { buf = (split p.buf bytes).1 }, messages (split p.buf bytes).0)
unfolding feed
feed_lem p bytes on partial fits =
    let drained = drain_lines-split (length (p.buf ++ bytes)) (p.buf ++ bytes) (omega arith) in
    let joined = split-append [] p.buf bytes in
    rw (
      on,
      drained,
      joined,
      partial,
      bounded_lem (split p.buf bytes).1 (Fits-split p.buf bytes fits),
    )

feed_all_lem :
    (p : Publisher) (chunks : List (List ℕ))
    → p.connected ≡ true
    → IsPartial p.buf
    → Fits p.buf (flatten chunks)
    → feed_all p chunks ≡ (
      record p { buf = (split p.buf (flatten chunks)).1 },
      messages (split p.buf (flatten chunks)).0,
    )
unfolding feed_all flatten
feed_all_lem p [] on partial fits = rw (split-nil p.buf, messages-nil)
feed_all_lem p (chunk ∷ chunks) on partial fits =
    let (now, later) = Fits-append p.buf chunk (flatten chunks) fits in
    let p' = record p { buf = (split p.buf chunk).1 } in
    rw (
      feed_lem p chunk on partial now,
      feed_all_lem p' chunks on (split-IsPartial p.buf chunk partial) later,
      split-append p.buf chunk (flatten chunks),
      messages-append (split p.buf chunk).0 (split (split p.buf chunk).1 (flatten chunks)).0,
    )

-- A connected publisher with an empty buffer publishes the complete lines of a stream, without
-- the carriage returns at their ends and without empty ones, and keeps the incomplete last one,
-- however the stream is cut into reads, when no line is longer than the buffer.
pub feed_all-split :
    (chunks : List (List ℕ))
    → Fits [] (flatten chunks)
    → feed_all (record { connected = true; buf = [] }) chunks ≡ (
      record { connected = true; buf = (split [] (flatten chunks)).1 },
      messages (split [] (flatten chunks)).0,
    )
feed_all-split chunks fits =
    feed_all_lem (record { connected = true; buf = [] }) chunks refl (split-nil []) fits
