-- ===== src/Config/Options/Timers.antt =====
-- app/config.py, `_legacy_seconds`: the timers of older configurations.
use ser2net.Common.{Bool, true, false, ◌≡◌, refl, Option, none, some, arith}
use ser2net.Common.Int.{pos, negsuc}
use ser2net.Common.Texts.{strip}
use ser2net.Config.{Floats, Scalar, boolean, integer, real, other}
use ser2net.Config.Options.{
  max_timer_s, Timer, text, scalar, cap_timer, whole_or_real, read_float, legacy_seconds, is_timer,
}

module _ (fl : Floats)
    (ordered : (x : fl.F)
      → fl.is_finite x ≡ true
      → fl.below x 0 ≡ false
      → fl.at_least x 0 ≡ true) where
  real_timer :
      (x : fl.F) (finite negative small : Bool)
      → fl.is_finite x ≡ finite
      → fl.below x 0 ≡ negative
      → fl.at_most x max_timer_s ≡ small
      → is_timer fl (cap_timer fl (real x)) ≡ true
  real_timer x false negative small f n s = rw (f) refl
  real_timer x true true small f n s = rw (f, n) refl
  real_timer x true false false f n s = rw (f, n, s) refl
  real_timer x true false true f n s = rw (f, n, s, ordered x f n) s

  cap_timer-is_timer : (v : Scalar fl) → is_timer fl (cap_timer fl v) ≡ true
  cap_timer-is_timer (boolean b) = refl
  cap_timer-is_timer (integer (pos n)) = ground arith
  cap_timer-is_timer (integer (negsuc n)) = refl
  cap_timer-is_timer (real x) =
      real_timer x (fl.is_finite x) (fl.below x 0) (fl.at_most x max_timer_s) refl refl refl
  cap_timer-is_timer other = refl

  read_float-is_timer : (o : Option fl.F) → is_timer fl (read_float fl o) ≡ true
  read_float-is_timer none = refl
  read_float-is_timer (some x) = cap_timer-is_timer (whole_or_real fl x (fl.as_int x))

  -- If a finite float that is not below 0 is at least 0, whatever an older configuration holds as a
  -- timer becomes a number of seconds that validates.
  pub legacy_seconds-is_timer : (v : Timer fl) → is_timer fl (legacy_seconds fl v) ≡ true
  unfolding legacy_seconds
  legacy_seconds-is_timer (text t) = read_float-is_timer (fl.parse (strip t))
  legacy_seconds-is_timer (scalar v) = cap_timer-is_timer v
