-- ===== src/Modbus/Rtu/Corruption.antt =====
-- app/engine/modbus.py, `rtu_unwrap`: frames with one byte changed.
use ser2net.Common.{
  ℕ, ◌+◌, ◌*◌, ◌≤◌, ◌≡◌, sym, ◌∙◌, ◌≢◌, List, [], ◌∷◌, ◌++◌, append_assoc, arith, length, All,
  length-append,
}
use ser2net.Common.Bits.{bit_or_join_low}
use ser2net.Common.Result.{ok, err}
use ser2net.Modbus.Crc.{IsByte, crc16}
use ser2net.Modbus.Crc.Detect.{crc16-ne_of_one_byte}
use ser2net.Modbus.Rtu.{crc_mismatch, rtu_unwrap}
use ser2net.Modbus.Rtu.RoundTrip.{rtu_unwrap-body}

-- How a list ends: empty, one element, or two elements behind the rest.
data Ending : List ℕ → Type 0 where
  empty : Ending []
  single : (c : ℕ) → Ending (c ∷ [])
  pair : (xs : List ℕ) (lo hi : ℕ) → Ending (xs ++ lo ∷ hi ∷ [])

Ending-cons : (x : ℕ) {xs : List ℕ} → Ending xs → Ending (x ∷ xs)
Ending-cons x empty = single x
Ending-cons x (single c) = pair [] x c
Ending-cons x (pair xs lo hi) = pair (x ∷ xs) lo hi

ending : (xs : List ℕ) → Ending xs
ending [] = empty
ending (x ∷ xs) = Ending-cons x (ending xs)

too_short_lem : (frame : List ℕ) {r : ℕ × List ℕ} → rtu_unwrap frame ≡ ok r → 4 ≤ length frame
unfolding rtu_unwrap
too_short_lem frame h = ground arith

-- The body matches its CRC when the frame passes.
body_matches :
    (body : List ℕ) (lo hi : ℕ) {r : ℕ × List ℕ}
    → 2 ≤ length body
    → IsByte lo
    → rtu_unwrap (body ++ lo ∷ hi ∷ []) ≡ ok r
    → crc16 body ≡ hi * 256 + lo
body_matches body lo hi long hlo h =
    ground (arith, rtu_unwrap-body body lo hi long, bit_or_join_low 8 hi lo hlo)

body_differs :
    (body : List ℕ) (lo hi : ℕ)
    → 2 ≤ length body
    → IsByte lo
    → crc16 body ≢ hi * 256 + lo
    → rtu_unwrap (body ++ lo ∷ hi ∷ []) ≡ err crc_mismatch
body_differs body lo hi long hlo h =
    ground (arith, rtu_unwrap-body body lo hi long, bit_or_join_low 8 hi lo hlo)

All-split : (xs ys : List ℕ) → All IsByte (xs ++ ys) → All IsByte xs × All IsByte ys
All-split [] ys h = (tt, h)
All-split (x ∷ xs) ys h = let (l, r) = All-split xs ys h.1 in ((h.0, l), r)

-- The changed byte is one of the two CRC bytes.
crc_changed :
    (body : List ℕ) (lo hi lo' hi' : ℕ) {r : ℕ × List ℕ}
    → IsByte lo
    → IsByte lo'
    → hi * 256 + lo ≢ hi' * 256 + lo'
    → rtu_unwrap (body ++ lo ∷ hi ∷ []) ≡ ok r
    → rtu_unwrap (body ++ lo' ∷ hi' ∷ []) ≡ err crc_mismatch
crc_changed body lo hi lo' hi' hlo hlo' ne h =
    let long : 2 ≤ length body =
      omega (arith, too_short_lem _ h, length-append body (lo ∷ hi ∷ [])) in
    body_differs body lo' hi' long hlo' (λ e. ne (sym (body_matches body lo hi long hlo h) ∙ e))

hi_changed :
    {front : List ℕ} (a b : ℕ) {r : ℕ × List ℕ}
    → Ending front
    → All IsByte front
    → a ≢ b
    → rtu_unwrap (front ++ a ∷ []) ≡ ok r
    → rtu_unwrap (front ++ b ∷ []) ≡ err crc_mismatch
hi_changed a b empty hf ne h = absurd (omega (arith, too_short_lem (a ∷ []) h))
hi_changed a b (single c) hf ne h = absurd (omega (arith, too_short_lem (c ∷ a ∷ []) h))
hi_changed a b (pair xs x lo) hf ne h =
    rw (regroup b)
      (crc_changed (xs ++ x ∷ []) lo a lo b low low (λ e. ne (omega arith)) (rw (regroup a) at h))
  where
    regroup : (c : ℕ) → (xs ++ x ∷ lo ∷ []) ++ c ∷ [] ≡ (xs ++ x ∷ []) ++ lo ∷ c ∷ []
    regroup c = simp append_assoc

    low : IsByte lo
    low = (All-split xs (x ∷ lo ∷ []) hf).1.1.0

-- The changed byte is in the body.
body_changed :
    (front back : List ℕ) (lo hi a b : ℕ) {r : ℕ × List ℕ}
    → All IsByte front
    → All IsByte back
    → IsByte lo
    → IsByte a
    → IsByte b
    → a ≢ b
    → rtu_unwrap ((front ++ a ∷ back) ++ lo ∷ hi ∷ []) ≡ ok r
    → rtu_unwrap ((front ++ b ∷ back) ++ lo ∷ hi ∷ []) ≡ err crc_mismatch
body_changed front back lo hi a b hf hk hlo ha hb ne h =
    let size-a = length-append front (a ∷ back) in
    let size-b = length-append front (b ∷ back) in
    let long : 2 ≤ length (front ++ a ∷ back) =
      omega (arith, too_short_lem _ h, length-append (front ++ a ∷ back) (lo ∷ hi ∷ [])) in
    body_differs (front ++ b ∷ back) lo hi (omega (arith, long, size-a, size-b)) hlo λ e.
      crc16-ne_of_one_byte front back a b hf hk ha hb ne
        (body_matches (front ++ a ∷ back) lo hi long hlo h ∙ sym e)

changed_at :
    (front : List ℕ) {back : List ℕ} (a b : ℕ) {r : ℕ × List ℕ}
    → Ending back
    → All IsByte front
    → All IsByte back
    → IsByte a
    → IsByte b
    → a ≢ b
    → rtu_unwrap (front ++ a ∷ back) ≡ ok r
    → rtu_unwrap (front ++ b ∷ back) ≡ err crc_mismatch
changed_at front a b empty hf hk ha hb ne h = hi_changed a b (ending front) hf ne h
changed_at front a b (single hi) hf hk ha hb ne h =
    crc_changed front a hi b hi ha hb (λ e. ne (omega arith)) h
changed_at front a b (pair xs lo hi) hf hk ha hb ne h =
    let (body, crc) = All-split xs (lo ∷ hi ∷ []) hk in
    rw (← append_assoc front (b ∷ xs) (lo ∷ hi ∷ [])) (
      body_changed front xs lo hi a b hf body crc.0 ha hb ne
        (rw (← append_assoc front (a ∷ xs) (lo ∷ hi ∷ [])) at h))

-- A frame of bytes that `rtu_unwrap` accepts is refused for its CRC once any one of its bytes,
-- the CRC's included, is another byte.
pub one_byte_detected :
    (front back : List ℕ) (a b : ℕ) {r : ℕ × List ℕ}
    → All IsByte front
    → All IsByte back
    → IsByte a
    → IsByte b
    → a ≢ b
    → rtu_unwrap (front ++ a ∷ back) ≡ ok r
    → rtu_unwrap (front ++ b ∷ back) ≡ err crc_mismatch
one_byte_detected front back a b hf hk ha hb ne h =
    changed_at front a b (ending back) hf hk ha hb ne h
