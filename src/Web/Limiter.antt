-- ===== src/Web/Limiter.antt =====
-- app/web/auth.py, `LoginRateLimiter`. Times and the window are in one unit of
-- the monotonic clock, such as nanoseconds; the dict of deques is a
-- function from addresses, empty where nothing was recorded.
pub mod Window
pub mod Blocked
use ser2net.Common.{ℕ, ◌-◌, Bool, List, [], ◌∷◌, ◌++◌, ltb, leb, bytes_eq, if◌then◌else◌, length}

pub record Limiter : Type 0 where
  pub max_attempts : ℕ
  pub window_s : ℕ
  pub fails : List ℕ → List ℕ

abbrev pub new_limiter : ℕ → ℕ → Limiter
new_limiter max_attempts window_s = record {
  max_attempts = max_attempts;
  window_s = window_s;
  fails = λ ip. [];
}

-- The entry of one address.
abbrev pub set_fails : Limiter → List ℕ → List ℕ → Limiter
set_fails l ip q = record l { fails = λ other. if bytes_eq other ip then q else l.fails other }

-- `while q and now - q[0] > self.window_s: q.popleft()`
unfoldable pub prune : ℕ → ℕ → List ℕ → List ℕ
prune window now [] = []
prune window now (t ∷ q) =
    let rest = prune window now q in if ltb window (now - t) then rest else t ∷ q

unfoldable pub blocked : Limiter → List ℕ → ℕ → Limiter × Bool
unfolding prune
blocked l ip now =
    let q = prune l.window_s now (l.fails ip) in (set_fails l ip q, leb l.max_attempts (length q))

unfoldable pub record_failure : Limiter → List ℕ → ℕ → Limiter
record_failure l ip now = set_fails l ip (l.fails ip ++ (now ∷ []))

unfoldable pub reset : Limiter → List ℕ → Limiter
reset l ip = set_fails l ip []

-- What happens at the login page.
pub data Event : Type 0 where
  asked : List ℕ → ℕ → Event
  failed : List ℕ → ℕ → Event
  passed : List ℕ → Event

unfoldable pub after : Limiter → Event → Limiter
unfolding blocked record_failure reset
after l (asked ip now) = (blocked l ip now).0
after l (failed ip now) = record_failure l ip now
after l (passed ip) = reset l ip

unfoldable pub after_all : Limiter → List Event → Limiter
unfolding after
after_all l [] = l
after_all l (e ∷ es) = after_all (after l e) es
