-- ===== src/Modbus/Rtu/RoundTrip.antt =====
-- app/engine/modbus.py: `rtu_unwrap` after `rtu_wrap`, and on a frame cut into body and CRC.
use ser2net.Common.{
  ℕ, zero, suc, ◌+◌, ◌-◌, ◌%◌, ◌≤◌, ◌<◌, bit_and, bit_or, ◌≡◌, refl, List, [], ◌∷◌, ◌++◌, arith,
  ◌==◌, if◌then◌else◌, length, get_or, take, drop, All, length-append, take-append_self,
}
use ser2net.Common.Bits.{shl, shr, bit_and_mask, bit_or_join_low}
use ser2net.Common.Result.{ok, err}
use ser2net.Modbus.Crc.{IsByte, crc16}
use ser2net.Modbus.Crc.Detect.{crc16-lt}
use ser2net.Modbus.Rtu.{crc_mismatch, rtu_wrap, rtu_unwrap}

get_or-append_at :
    (xs : List ℕ) (a d : ℕ) (ys : List ℕ) (n : ℕ) → n ≡ length xs → get_or (xs ++ a ∷ ys) n d ≡ a
get_or-append_at [] a d ys zero e = refl
get_or-append_at [] a d ys (suc n) e = absurd (omega arith)
get_or-append_at (x ∷ xs) a d ys zero e = absurd (omega arith)
get_or-append_at (x ∷ xs) a d ys (suc n) e = get_or-append_at xs a d ys n (omega arith)

get_or-append_next :
    (xs : List ℕ) (a b d n : ℕ) → n ≡ length xs + 1 → get_or (xs ++ a ∷ b ∷ []) n d ≡ b
get_or-append_next [] a b d n e = rw e
get_or-append_next (x ∷ xs) a b d zero e = absurd (omega arith)
get_or-append_next (x ∷ xs) a b d (suc n) e = get_or-append_next xs a b d n (omega arith)

take-append_at : (xs ys : List ℕ) (n : ℕ) → n ≡ length xs → take n (xs ++ ys) ≡ xs
take-append_at xs ys n e = rw e (take-append_self xs ys)

unwrap_parts :
    (frame body : List ℕ) (lo hi : ℕ)
    → 4 ≤ length frame
    → take (length frame - 2) frame ≡ body
    → get_or frame (length frame - 2) 0 ≡ lo
    → get_or frame (length frame - 1) 0 ≡ hi
    → rtu_unwrap frame ≡ (
        if crc16 body == bit_or lo (shl hi 8)
        then ok (get_or body 0 0, drop 1 body)
        else err crc_mismatch)
unfolding rtu_unwrap
unwrap_parts frame body lo hi long b l h = rw (b, l, h) (ground arith)

-- A frame of at least four bytes, cut into what the CRC covers and the CRC.
pub rtu_unwrap-body :
    (body : List ℕ) (lo hi : ℕ)
    → 2 ≤ length body
    → rtu_unwrap (body ++ lo ∷ hi ∷ []) ≡ (
        if crc16 body == bit_or lo (shl hi 8)
        then ok (get_or body 0 0, drop 1 body)
        else err crc_mismatch)
rtu_unwrap-body body lo hi long =
    let size = length-append body (lo ∷ hi ∷ []) in
    unwrap_parts (body ++ lo ∷ hi ∷ []) body lo hi (omega (arith, size))
      (take-append_at body (lo ∷ hi ∷ []) _ (omega (arith, size)))
      (get_or-append_at body lo 0 (hi ∷ []) _ (omega (arith, size)))
      (get_or-append_next body lo hi 0 _ (omega (arith, size)))

-- The two CRC bytes hold the CRC.
pub crc_bytes_join :
    (crc : ℕ) → crc < 65536 → bit_or (bit_and crc 0xFF) (shl (bit_and (shr crc 8) 0xFF) 8) ≡ crc
crc_bytes_join crc h = ground (
  arith,
  bit_and_mask 8 crc,
  bit_and_mask 8 (shr crc 8),
  bit_or_join_low 8 (bit_and (shr crc 8) 0xFF) (bit_and crc 0xFF),
)

-- A wrapped PDU of at least one byte, all of them bytes, comes back with the low byte of the
-- unit.
pub rtu_unwrap-rtu_wrap :
    (unit p : ℕ) (rest : List ℕ)
    → All IsByte (p ∷ rest)
    → rtu_unwrap (rtu_wrap unit (p ∷ rest)) ≡ ok (unit % 256, p ∷ rest)
unfolding rtu_wrap
rtu_unwrap-rtu_wrap unit p rest h = ground (
  arith,
  bit_and_mask 8 unit,
  rtu_unwrap-body (bit_and unit 0xFF ∷ p ∷ rest) (bit_and crc 0xFF) (bit_and (shr crc 8) 0xFF),
  crc_bytes_join crc (crc16-lt _ (omega (arith, bit_and_mask 8 unit), h)),
)
  where
    crc : ℕ
    crc = crc16 (bit_and unit 0xFF ∷ p ∷ rest)
