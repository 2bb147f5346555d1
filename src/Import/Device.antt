-- ===== src/Import/Device.antt =====
-- app/ser2net_import.py: the device side of a connection and its serial options.
pub mod Formats
pub mod Sound
pub mod Valid
use ser2net.Common.{
  ℕ, ◌-◌, Bool, true, false, not, ◌&&◌, ◌||◌, Option, none, some, List, [], ◌∷◌, ◌++◌, leb, ◌==◌,
  is_nil, bytes_eq, if◌then◌else◌,
}
use ser2net.Common.Result.{Result, ok, ◌>>=◌}
use ser2net.Common.Int.{pos}
use ser2net.Common.Texts.{codes, strip, is_any_of, is_space}
use Prim.Native.String.{String}
use ser2net.Config.{Floats, World, integer}
use ser2net.Config.Serial.{SerialSettings}
use ser2net.Import.{
  ValueError, Conn, note, skip, drop_option, no_device, dev_as_serial, local_lost,
  connector_layer_lost, not_a_connector, no_flag_value, not_on_off, rs485_lost,
}
use ser2net.Import.Text.{lower, bool_of, split_gensio, layer}
use ser2net.Import.Listen.{digit_of, is_some, int_of, net_terminals, other_terminals, key_and_value}

-- What `re.I` lets match the small letter `x`. The long s is the one character outside ASCII that
-- matters here.
abbrev pub same_letter : ℕ → ℕ → Bool
same_letter x c = c == x || c == x - 32 || x == b's' && c == 0x17F

-- What follows a text.
abbrev pub behind_text : List ℕ → List ℕ → Option (List ℕ)
behind_text [] cs = some cs
behind_text (x ∷ text) [] = none
behind_text (x ∷ text) (c ∷ cs) = let rest = behind_text text cs in if x == c then rest else none

-- What follows a word.
abbrev pub behind_word : List ℕ → List ℕ → Option (List ℕ)
behind_word [] cs = some cs
behind_word (x ∷ word) [] = none
behind_word (x ∷ word) (c ∷ cs) =
    let rest = behind_word word cs in if same_letter x c then rest else none

abbrev pub behind_equals : List ℕ → Option (List ℕ) → List ℕ
behind_equals tok none = tok
behind_equals tok (some []) = tok
behind_equals tok (some (c ∷ cs)) = if c == b'=' then cs else tok

abbrev pub parity_of : ℕ → Option String
parity_of c =
    if same_letter b'n' c
    then some "N"
    else if same_letter b'e' c
    then some "E"
    else if same_letter b'o' c
    then some "O"
    else if same_letter b'm' c
    then some "M"
    else if same_letter b's' c
    then some "S"
    else none

-- What `_SPEED` finds behind the speed.
pub record Format : Type 0 where
  pub parity : Option String
  pub bytesize : Option ℕ
  pub stopbits : Option ℕ

abbrev pub is_size : ℕ → Bool
is_size x = leb b'5' x && leb x b'8'

abbrev pub is_stop : ℕ → Bool
is_stop x = x == b'1' || x == b'2'

abbrev pub sizes : String → List ℕ → Option Format
sizes p [] = some (record { parity = some p; bytesize = none; stopbits = none })
sizes p (x ∷ []) =
    if is_size x
    then some (record { parity = some p; bytesize = some (x - 48); stopbits = none })
    else if is_stop x
    then some (record { parity = some p; bytesize = none; stopbits = some (x - 48) })
    else none
sizes p (x ∷ y ∷ []) =
    if is_size x && is_stop y
    then some (record { parity = some p; bytesize = some (x - 48); stopbits = some (y - 48) })
    else none
sizes p (x ∷ y ∷ z ∷ more) = none

abbrev pub with_parity : Option String → List ℕ → Option Format
with_parity none cs = none
with_parity (some p) cs = sizes p cs

abbrev pub format : List ℕ → Option Format
format [] = some (record { parity = none; bytesize = none; stopbits = none })
format (c ∷ cs) = with_parity (parity_of c) cs

abbrev pub digits_and_format : List ℕ → Option Format → Option (List ℕ × Format)
digits_and_format [] f = none
digits_and_format (d ∷ digits) none = none
digits_and_format (d ∷ digits) (some f) = some (d ∷ digits, f)

-- `str.split()`
abbrev pub words : List ℕ → List ℕ → List (List ℕ)
words [] [] = []
words (c ∷ word) [] = (c ∷ word) ∷ []
words [] (x ∷ xs) =
    let done = words [] xs in let more = words (x ∷ []) xs in if is_space x then done else more
words (c ∷ word) (x ∷ xs) =
    let done = words [] xs in
    let more = words (c ∷ (word ++ (x ∷ []))) xs in if is_space x then (c ∷ word) ∷ done else more

abbrev pub tokens_of : List (List ℕ) → List (List ℕ)
tokens_of [] = []
tokens_of (f ∷ fields) = words [] f ++ tokens_of fields

abbrev pub serial_flags : List (List ℕ)
serial_flags =
    codes "xonxoff"
    ∷ codes "rtscts"
    ∷ codes "hangup-when-done"
    ∷ codes "hangup_when_done"
    ∷ codes "hupcl"
    ∷ codes "nobreak"
    ∷ codes "rdonly"
    ∷ codes "local"
    ∷ []

module _ (fl : Floats) (os : World) where
  -- The decimal digits in front, and the rest.
  abbrev pub digits_and_rest : List ℕ → List ℕ × List ℕ
  digits_and_rest [] = ([], [])
  digits_and_rest (c ∷ cs) =
      let (digits, rest) = digits_and_rest cs in
      if is_some (digit_of fl os c) then (c ∷ digits, rest) else ([], c ∷ cs)

  -- `_SPEED.fullmatch(tok)` with its groups.
  unfoldable pub speed_of : List ℕ → Option (List ℕ × Format)
  speed_of tok =
      let (digits, rest) = digits_and_rest (behind_equals tok (behind_word (codes "speed") tok)) in
      digits_and_format digits (format rest)

  abbrev pub put_parity : Option String → SerialSettings fl → SerialSettings fl
  put_parity none s = s
  put_parity (some p) s = record s { parity = p }

  abbrev pub put_bytesize : Option ℕ → SerialSettings fl → SerialSettings fl
  put_bytesize none s = s
  put_bytesize (some n) s = record s { bytesize = integer (pos n) }

  abbrev pub put_stopbits : Option ℕ → SerialSettings fl → SerialSettings fl
  put_stopbits none s = s
  put_stopbits (some n) s = record s { stopbits = integer (pos n) }

  abbrev pub put_speed : ℕ → Format → SerialSettings fl → SerialSettings fl
  put_speed n f s =
      put_stopbits f.stopbits
        (put_bytesize f.bytesize (put_parity f.parity (record s { baudrate = integer (pos n) })))

  abbrev pub set_speed : ℕ → Format → Conn fl → Conn fl
  set_speed n f c = record c { serial = put_speed n f c.serial }

  abbrev pub set_hangup : Bool → Conn fl → Conn fl
  set_hangup b c = record c {
    serial = record c.serial { advanced = record c.serial.advanced { hangup_when_done = b } };
  }

  abbrev pub set_nobreak : Bool → Conn fl → Conn fl
  set_nobreak b c = record c {
    serial = record c.serial { advanced = record c.serial.advanced { nobreak = b } };
  }

  abbrev pub line_state : Bool → List ℕ → List ℕ
  line_state flag value =
      if flag then lower (strip (if is_nil value then codes "on" else value)) else codes "off"

  abbrev pub put_line : List ℕ → String → Conn fl → Conn fl
  put_line low state c =
      if bytes_eq low (codes "dtr")
      then record c { serial = record c.serial { dtr_on_open = state } }
      else record c { serial = record c.serial { rts_on_open = state } }

  abbrev pub set_line : List ℕ → List ℕ → List ℕ → Conn fl → Conn fl
  set_line low state tok c =
      if bytes_eq state (codes "on")
      then put_line low "on" c
      else if bytes_eq state (codes "off")
      then put_line low "off" c
      else note fl (not_on_off tok) c

  abbrev pub set_rdonly : Bool → Conn fl → Conn fl
  set_rdonly flag c =
      if flag then record c { network = record c.network { read_only = true } } else c

  abbrev pub note_rs485 : List ℕ → List ℕ → Conn fl → Conn fl
  note_rs485 value tok c =
      if is_any_of (lower (strip value)) ([] ∷ codes "off" ∷ [])
      then c
      else note fl (rs485_lost tok) c

  abbrev pub note_local : Bool → Conn fl → Conn fl
  note_local flag c = if flag then c else note fl local_lost c

  -- What an option with the name `low` does.
  abbrev pub set_flag : Bool → List ℕ → List ℕ → List ℕ → Conn fl → Conn fl
  set_flag flag low value tok c =
      if bytes_eq low (codes "xonxoff")
      then record c { xonxoff = flag }
      else if bytes_eq low (codes "rtscts")
      then record c { rtscts = flag }
      else if is_any_of low
          (codes "hangup-when-done" ∷ codes "hangup_when_done" ∷ codes "hupcl" ∷ [])
      then set_hangup flag c
      else if bytes_eq low (codes "nobreak")
      then set_nobreak flag c
      else if is_any_of low (codes "dtr" ∷ codes "rts" ∷ [])
      then set_line low (line_state flag value) tok c
      else if bytes_eq low (codes "rs485")
      then note_rs485 value tok c
      else if bytes_eq low (codes "rdonly")
      then set_rdonly flag c
      else note_local flag c

  abbrev pub without_minus : List ℕ → List ℕ × Bool
  without_minus [] = ([], true)
  without_minus (c ∷ low) = if c == b'-' then (low, false) else (c ∷ low, true)

  abbrev pub given_flag : Option Bool → List ℕ → List ℕ → List ℕ → Conn fl → Conn fl
  given_flag none low value tok c = note fl (no_flag_value tok) c
  given_flag (some flag) low value tok c = set_flag flag low value tok c

  abbrev pub value_flag : Bool → Option (List ℕ) → List ℕ → List ℕ → Conn fl → Conn fl
  value_flag flag none low tok c = set_flag flag low [] tok c
  value_flag flag (some value) low tok c =
      if flag && is_any_of low serial_flags
      then given_flag (bool_of value) low value tok c
      else set_flag flag low value tok c

  abbrev pub named_option : List ℕ × Option (List ℕ) → List ℕ → Conn fl → Conn fl
  named_option (name, value) tok c =
      let (low, flag) = without_minus (lower name) in
      if is_any_of low (serial_flags ++ (codes "dtr" ∷ codes "rts" ∷ codes "rs485" ∷ []))
      then value_flag flag value low tok c
      else if is_any_of low
          (codes "custspeed" ∷ codes "uucplock" ∷ codes "flock" ∷ codes "readbuf" ∷ [])
      then c
      else drop_option fl tok c

  abbrev pub set_serial : Option (List ℕ × Format) → List ℕ → Conn fl → Result ValueError (Conn fl)
  set_serial (some (digits, f)) tok c = do n ← int_of fl os digits; ok (set_speed n f c)
  set_serial none tok c = ok (named_option (key_and_value fl os tok) tok c)

  -- `_serial_option`
  unfoldable pub serial_option : Conn fl → List ℕ → Result ValueError (Conn fl)
  unfolding strip bool_of speed_of
  serial_option c tok = set_serial (speed_of tok) tok c

  unfoldable pub serial_options : Conn fl → List (List ℕ) → Result ValueError (Conn fl)
  unfolding serial_option
  serial_options c [] = ok c
  serial_options c (tok ∷ toks) = do c' ← serial_option c tok; serial_options c' toks

  abbrev pub all_decimal : List ℕ → Bool
  all_decimal [] = true
  all_decimal (c ∷ cs) = is_some (digit_of fl os c) && all_decimal cs

  abbrev pub com_port : List ℕ → Option (List ℕ) → List ℕ
  com_port device none = device
  com_port device (some digits) =
      if not (is_nil digits) && all_decimal digits then codes "COM" ++ digits else device

  abbrev pub behind_prefix : List ℕ → Option (List ℕ) → Option (List ℕ) → List ℕ
  behind_prefix device none none = device
  behind_prefix device none (some rest) = com_port device (behind_word (codes "com") rest)
  behind_prefix device (some rest) slashes = com_port device (behind_word (codes "com") rest)

  -- `_windows_device`
  abbrev pub windows_device : List ℕ → List ℕ
  windows_device device =
      behind_prefix device (behind_text (b'\\' ∷ b'\\' ∷ b'.' ∷ b'\\' ∷ []) device)
        (behind_text (codes "//./") device)

  abbrev pub note_dev : List ℕ → Conn fl → Conn fl
  note_dev low c = if bytes_eq low (codes "dev") then note fl dev_as_serial c else c

  abbrev pub open_device :
      List ℕ
      → List (List ℕ)
      → List (List ℕ)
      → List (List ℕ)
      → Conn fl
      → Result ValueError (Conn fl × Bool)
  open_device low defaults opts [] c = ok (skip fl no_device c, false)
  open_device low defaults opts (device ∷ toks) c = do
    let named = record c { device = windows_device device }
    c' ← serial_options (note_dev low named) (defaults ++ (opts ++ toks))
    ok (c', true)

  unfoldable pub connector_layers :
      List ℕ → List (List ℕ) → Conn fl → List (List ℕ) → Result ValueError (Conn fl × Bool)
  unfolding layer serial_options
  connector_layers spec defaults c [] = ok (skip fl (not_a_connector spec) c, false)
  connector_layers spec defaults c (part ∷ layers) =
      let (name, opts) = layer part in
      let low = lower name in
      let later = connector_layers spec defaults (note fl (connector_layer_lost name) c) layers in
      if is_any_of low (codes "serialdev" ∷ codes "sdev" ∷ codes "dev" ∷ [])
      then open_device low defaults opts (tokens_of layers) c
      else if is_any_of low (net_terminals fl os) || is_any_of low (other_terminals fl os)
      then ok (skip fl (not_a_connector spec) c, false)
      else later

  unfoldable pub connector : Conn fl → List ℕ → List (List ℕ) → Result ValueError (Conn fl × Bool)
  unfolding connector_layers split_gensio
  connector c spec defaults = connector_layers spec defaults c (split_gensio spec)
