-- ===== src/Config/Options.antt =====
-- app/config.py, `MappingOptions`, and the values of older configurations that it reads.
pub mod TraceName
pub mod Timers
use ser2net.Common.{
  ℕ, Bool, true, false, not, ◌&&◌, ◌||◌, Option, none, some, List, [], ◌∷◌, ltb, leb, ◌==◌, min,
  ◌*◌, ◌++◌, if◌then◌else◌, take,
}
use ser2net.Common.Result.{Result, ok, ◌>>=◌, ◌>>◌, raise_if}
use ser2net.Common.Int.{ℤ, pos, negsuc}
use ser2net.Common.Texts.{codes, strip, strip_of, rstrip_of}
use ser2net.Config.{
  ConfigError, bad_idle_timeout, bad_connection_time, bad_trace_size, bad_trace_keep, Floats, World,
  Scalar, boolean, integer, real, other, is_int, is_number, within,
}

abbrev pub max_timer_s : ℕ
max_timer_s = 365 * 86400

-- The last component of a path: what follows the last slash of either kind.
unfoldable pub last_component : List ℕ → List ℕ → List ℕ
last_component name [] = name
last_component name (c ∷ cs) =
    if c == b'/' || c == b'\\' then last_component [] cs else last_component (name ++ (c ∷ [])) cs

-- `strip(". ")`
abbrev pub is_dot : ℕ → Bool
is_dot c = c == b'.' || c == b' '

abbrev pub trace_default_name : List ℕ
trace_default_name = codes "trace.log"

abbrev pub or_default : List ℕ → List ℕ
or_default [] = trace_default_name
or_default (c ∷ cs) = c ∷ cs

module _ (os : World) where
  -- `\w`, and the characters of `_TRACE_NAME_BAD`'s class.
  abbrev pub is_word : ℕ → Bool
  is_word c =
      if ltb c 128
      then leb b'0' c && leb c b'9'
        || leb b'A' c && leb c b'Z'
        || leb b'a' c && leb c b'z'
        || c == b'_'
      else os.is_letter c

  abbrev pub is_name_char : ℕ → Bool
  is_name_char c = is_word c || c == b'.' || c == b'-'

  -- `_TRACE_NAME_BAD.sub("_", name)`; `inside` is true within a run that was replaced.
  unfoldable pub replace_bad : Bool → List ℕ → List ℕ
  replace_bad inside [] = []
  replace_bad inside (c ∷ cs) =
      let kept = replace_bad false cs in
      let more = replace_bad true cs in
      if is_name_char c then c ∷ kept else if inside then more else b'_' ∷ more

  abbrev pub clean : List ℕ → List ℕ
  clean name = rstrip_of is_dot (take 80 (strip_of is_dot (replace_bad false name)))

  abbrev pub name_of : List ℕ → List ℕ
  name_of [] = []
  name_of (c ∷ cs) = or_default (clean (last_component [] (c ∷ cs)))

  unfoldable pub trace_file_name : List ℕ → List ℕ
  unfolding strip replace_bad last_component
  trace_file_name value = name_of (strip value)

module _ (fl : Floats) where
  open fl use {F, of_nat, parse, is_finite, as_int, below, at_least_0_1, at_most}

  -- A timer as an old configuration holds it.
  pub data Timer : Type 0 where
    text : List ℕ → Timer
    scalar : Scalar fl → Timer

  -- `min(value, MAX_TIMER_S)`, for the numbers.
  abbrev pub cap_timer : Scalar fl → Scalar fl
  cap_timer (boolean b) = integer (pos 0)
  cap_timer (integer (pos n)) = integer (pos (min n max_timer_s))
  cap_timer (integer (negsuc n)) = integer (pos 0)
  cap_timer (real x) =
      if not (is_finite x) || below x 0
      then integer (pos 0)
      else if at_most x max_timer_s
      then real x
      else integer (pos max_timer_s)
  cap_timer other = integer (pos 0)

  abbrev pub whole_or_real : F → Option ℤ → Scalar fl
  whole_or_real x none = real x
  whole_or_real x (some v) = integer v

  abbrev pub read_float : Option F → Scalar fl
  read_float none = integer (pos 0)
  read_float (some x) = cap_timer (whole_or_real x (as_int x))

  unfoldable pub legacy_seconds : Timer → Scalar fl
  unfolding strip
  legacy_seconds (text t) = read_float (parse (strip t))
  legacy_seconds (scalar v) = cap_timer v

  pub record MappingOptions : Type 0 where
    pub banner : List ℕ
    pub openstr : List ℕ
    pub closestr : List ℕ
    pub closeon : List ℕ
    pub idle_timeout_s : Scalar fl
    pub max_connection_time_s : Scalar fl
    pub trace_both : List ℕ
    pub trace_hexdump : Bool
    pub trace_timestamp : Bool
    pub trace_max_mb : Scalar fl
    pub trace_keep : Scalar fl
    pub rfc2217_poll_modem_interval_s : Scalar fl
    pub rfc2217_net_timeout_s : Scalar fl
    pub modbus_response_timeout_s : Scalar fl

  abbrev pub default_options : MappingOptions
  default_options = record {
    banner = [];
    openstr = [];
    closestr = [];
    closeon = [];
    idle_timeout_s = integer (pos 0);
    max_connection_time_s = integer (pos 0);
    trace_both = [];
    trace_hexdump = false;
    trace_timestamp = true;
    trace_max_mb = real (of_nat 10);
    trace_keep = integer (pos 3);
    rfc2217_poll_modem_interval_s = real (of_nat 1);
    rfc2217_net_timeout_s = real (of_nat 3);
    modbus_response_timeout_s = real (of_nat 1);
  }

  abbrev pub is_timer : Scalar fl → Bool
  is_timer v = is_number fl v && within fl 0 max_timer_s v

  -- `0.1 <= value <= 1024`; a whole number is at least 0.1 from 1 on.
  abbrev pub is_trace_size : Scalar fl → Bool
  is_trace_size (boolean b) = false
  is_trace_size (integer v) = within fl 1 1024 (integer v)
  is_trace_size (real x) = at_least_0_1 x && at_most x 1024
  is_trace_size other = false

  unfoldable pub validate : MappingOptions → Result ConfigError (Unit {0})
  validate o = do
    raise_if (not (is_timer o.idle_timeout_s)) bad_idle_timeout
    raise_if (not (is_timer o.max_connection_time_s)) bad_connection_time
    raise_if (not (is_trace_size o.trace_max_mb)) bad_trace_size
    raise_if (not (is_int fl o.trace_keep && within fl 0 50 o.trace_keep)) bad_trace_keep
    ok tt

  -- What `from_dict` does to the values it read.
  unfoldable pub normalise : World → Timer → MappingOptions → MappingOptions
  unfolding legacy_seconds trace_file_name
  normalise os idle o = record o {
    idle_timeout_s = legacy_seconds idle;
    trace_both = trace_file_name os o.trace_both;
  }
