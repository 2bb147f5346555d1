-- ===== src/Telnet/Escape.antt =====
-- app/engine/protocols/telnet.py: chunks of a stream, and escaped data.
use ser2net.Common.{ℕ, ◌≡◌, refl, ◌≢◌, List, [], ◌∷◌, ◌++◌, append_assoc, arith}
use ser2net.Telnet.{Session, Mode, text, iac, set_mode, after_iac, step, from_serial, from_network}

-- The session after a chunk is all that the next chunk depends on.
pub from_network-append :
    (s : Session) (xs ys : List ℕ)
    → from_network s (xs ++ ys) ≡ (
      (from_network (from_network s xs).0 ys).0,
      (from_network s xs).1 ++ (from_network (from_network s xs).0 ys).1,
    )
unfolding from_network
from_network-append s [] ys = refl
from_network-append s (x ∷ xs) ys =
    rw (from_network-append (step s.mode s x).0 xs ys, append_assoc (step s.mode s x).1)

pub set_mode_self : (s : Session) {m : Mode} → s.mode ≡ m → set_mode s m ≡ s
set_mode_self s h = rw (← h)

-- A plain byte and an escaped 0xFF, each followed by the rest of the stream.
pub text_byte :
    (s : Session) (b : ℕ) (rest : List ℕ)
    → s.mode ≡ text
    → b ≢ iac
    → from_network s (b ∷ rest) ≡ ((from_network s rest).0, b ∷ (from_network s rest).1)
unfolding from_network
text_byte s b rest h ne =
    let e : step s.mode s b ≡ (s, b ∷ []) = rw h (unfold step in ground arith) in rw e

pub escaped_iac :
    (s : Session) (rest : List ℕ)
    → s.mode ≡ text
    → from_network s (iac ∷ iac ∷ rest) ≡ ((from_network s rest).0, iac ∷ (from_network s rest).1)
unfolding from_network
escaped_iac s rest h =
    let e : step s.mode s iac ≡ (set_mode s after_iac, []) = rw h (unfold step in refl) in
    let back : set_mode (set_mode s after_iac) text ≡ s = set_mode_self s h in rw (e, back)

-- A session between commands reads data that was escaped for a telnet peer unchanged, and is left
-- as it was.
pub from_network-from_serial :
    (s : Session) (bytes : List ℕ) → s.mode ≡ text → from_network s (from_serial bytes) ≡ (s, bytes)
unfolding from_serial
from_network-from_serial s [] h = unfold from_network in refl
from_network-from_serial s (b ∷ rest) h = ground (
  arith,
  text_byte s b (from_serial rest) h,
  escaped_iac s (from_serial rest) h,
  from_network-from_serial s rest h,
)
