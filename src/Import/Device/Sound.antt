-- ===== src/Import/Device/Sound.antt =====
-- app/ser2net_import.py: the serial settings that the serial options of a connection make.
use ser2net.Common.{
  ℕ, Bool, true, false, ◌&&◌, ◌≡◌, refl, Option, none, some, List, [], ◌∷◌, ◌++◌, bytes_eq,
  if◌then◌else◌,
}
use mathlib.Core.Path.{subst}
use ser2net.Common.Result.{ok, Ensures, Ensures->>=, Ensures-any}
use ser2net.Common.Int.{pos}
use ser2net.Common.Texts.{codes, is_any_of, is_one_of}
use Prim.Native.String.{String}
use ser2net.Config.{Floats, World, integer}
use ser2net.Config.Serial.{SerialSettings, parities, line_states, is_bytesize, is_stopbits}
use ser2net.Import.{Conn, note, drop_option}
use ser2net.Import.Text.{lower, bool_of}
use ser2net.Import.Listen.{int_of, key_and_value}
use ser2net.Import.Device
use ser2net.Import.Device.Formats.{ParityFits, SizeFits, StopFits, FormatFits, format-Fits}

module _ (fl : Floats) (os : World) where
  -- What `SerialSettings.validate` asks of the format and the lines, with a speed that is a number.
  abbrev pub IsSound : SerialSettings fl → Type 0
  IsSound s =
      ((n : ℕ) × (s.baudrate ≡ integer (pos n)))
      × (is_bytesize fl s.bytesize ≡ true)
      × (is_one_of s.parity parities ≡ true)
      × (is_stopbits fl s.stopbits ≡ true)
      × (is_one_of s.rts_on_open line_states ≡ true)
      × (is_one_of s.dtr_on_open line_states ≡ true)
      × (s.advanced.rs485_enabled ≡ false)

  put_parity-Sound :
      (p : Option String) (s : SerialSettings fl)
      → ParityFits fl os p
      → IsSound s
      → IsSound (Device.put_parity fl os p s)
  put_parity-Sound none s f h = h
  put_parity-Sound (some p) s f (n, size, parity, stop, rts, dtr, r) =
      (n, size, f, stop, rts, dtr, r)

  put_bytesize-Sound :
      (b : Option ℕ) (s : SerialSettings fl)
      → SizeFits fl os b
      → IsSound s
      → IsSound (Device.put_bytesize fl os b s)
  put_bytesize-Sound none s f h = h
  put_bytesize-Sound (some b) s f (n, size, parity, stop, rts, dtr, r) =
      (n, f, parity, stop, rts, dtr, r)

  put_stopbits-Sound :
      (b : Option ℕ) (s : SerialSettings fl)
      → StopFits fl os b
      → IsSound s
      → IsSound (Device.put_stopbits fl os b s)
  put_stopbits-Sound none s f h = h
  put_stopbits-Sound (some b) s f (n, size, parity, stop, rts, dtr, r) =
      (n, size, parity, f, rts, dtr, r)

  put_speed-Sound :
      (n : ℕ) (f : Device.Format) (s : SerialSettings fl)
      → FormatFits fl os (some f)
      → IsSound s
      → IsSound (Device.put_speed fl os n f s)
  put_speed-Sound n f s (p, b, t) (m, size, parity, stop, rts, dtr, r) =
      let s1 = record s { baudrate = integer (pos n) } in
      let s2 = Device.put_parity fl os f.parity s1 in
      let s3 = Device.put_bytesize fl os f.bytesize s2 in
      put_stopbits-Sound f.stopbits s3 t (
        put_bytesize-Sound f.bytesize s2 b
          (put_parity-Sound f.parity s1 p ((n, refl), size, parity, stop, rts, dtr, r)))

  pub Sound-if :
      (b : Bool) (c d : Conn fl)
      → IsSound c.serial
      → IsSound d.serial
      → IsSound (if b then c else d).serial
  Sound-if true c d h h' = h
  Sound-if false c d h h' = h'

  put_line-Sound :
      (low : List ℕ) (state : String) (c : Conn fl)
      → is_one_of state line_states ≡ true
      → IsSound c.serial
      → IsSound (Device.put_line fl os low state c).serial
  put_line-Sound low state c f (n, size, parity, stop, rts, dtr, r) =
      Sound-if (bytes_eq low (codes "dtr"))
        (record c { serial = record c.serial { dtr_on_open = state } })
        (record c { serial = record c.serial { rts_on_open = state } })
        (n, size, parity, stop, rts, f, r) (n, size, parity, stop, f, dtr, r)

  set_line-Sound :
      (low state tok : List ℕ) (c : Conn fl)
      → IsSound c.serial
      → IsSound (Device.set_line fl os low state tok c).serial
  set_line-Sound low state tok c h =
      Sound-if (bytes_eq state (codes "on")) (Device.put_line fl os low "on" c) _
        (put_line-Sound low "on" c refl h)
        (Sound-if (bytes_eq state (codes "off")) (Device.put_line fl os low "off" c)
          (note fl (Device.not_on_off tok) c) (put_line-Sound low "off" c refl h) h)

  set_flag-Sound :
      (flag : Bool) (low value tok : List ℕ) (c : Conn fl)
      → IsSound c.serial
      → IsSound (Device.set_flag fl os flag low value tok c).serial
  set_flag-Sound flag low value tok c h =
      Sound-if (bytes_eq low (codes "xonxoff")) (record c { xonxoff = flag }) _ h
        (Sound-if (bytes_eq low (codes "rtscts")) (record c { rtscts = flag }) _ h
          (Sound-if _ (Device.set_hangup fl os flag c) _ h (
            Sound-if (bytes_eq low (codes "nobreak")) (Device.set_nobreak fl os flag c) _ h (
              Sound-if (is_any_of low (codes "dtr" ∷ codes "rts" ∷ []))
                (Device.set_line fl os low (Device.line_state fl os flag value) tok c) _
                (set_line-Sound low (Device.line_state fl os flag value) tok c h)
                (Sound-if (bytes_eq low (codes "rs485")) (Device.note_rs485 fl os value tok c) _
                  (Sound-if _ c _ h h)
                  (Sound-if (bytes_eq low (codes "rdonly")) (Device.set_rdonly fl os flag c)
                    (Device.note_local fl os flag c) (Sound-if flag _ c h h)
                    (Sound-if flag c _ h h)))))))

  value_flag-Sound :
      (flag : Bool) (value : Option (List ℕ)) (low tok : List ℕ) (c : Conn fl)
      → IsSound c.serial
      → IsSound (Device.value_flag fl os flag value low tok c).serial
  value_flag-Sound flag none low tok c h = set_flag-Sound flag low [] tok c h
  value_flag-Sound flag (some value) low tok c h =
      Sound-if (flag && is_any_of low Device.serial_flags)
        (Device.given_flag fl os (bool_of value) low value tok c)
        (Device.set_flag fl os flag low value tok c) (given (bool_of value))
        (set_flag-Sound flag low value tok c h)
    where
      given : (b : Option Bool) → IsSound (Device.given_flag fl os b low value tok c).serial
      given none = h
      given (some b) = set_flag-Sound b low value tok c h

  unfoldable pub IsSoundConn : Conn fl → Type 0
  IsSoundConn c = IsSound c.serial

  set_serial-Sound :
      (found : Option (List ℕ × Device.Format)) (tok : List ℕ) (c : Conn fl)
      → ((ds : List ℕ) (f : Device.Format) → found ≡ some (ds, f) → FormatFits fl os (some f))
      → IsSound c.serial
      → Ensures IsSoundConn (Device.set_serial fl os found tok c)
  unfolding IsSoundConn
  set_serial-Sound (some (digits, f)) tok c fits h =
      Ensures->>= (λ n. Unit {0}) IsSoundConn (int_of fl os digits)
        (λ n. ok (Device.set_speed fl os n f c))
        (Ensures-any (λ n. Unit {0}) (int_of fl os digits) (λ n. tt))
        (λ n u. put_speed-Sound n f c.serial (fits digits f refl) h)
  set_serial-Sound none tok c fits h =
      let (name, value) = key_and_value fl os tok in
      let (low, flag) = Device.without_minus fl os (lower name) in
      Sound-if
        (is_any_of low (Device.serial_flags ++ (codes "dtr" ∷ codes "rts" ∷ codes "rs485" ∷ [])))
        (Device.value_flag fl os flag value low tok c) _ (value_flag-Sound flag value low tok c h)
        (Sound-if _ c (drop_option fl tok c) h (Sound-if _ c _ h h))

  digits_and_format-Fits :
      (digits : List ℕ) (o : Option Device.Format) (ds : List ℕ) (f : Device.Format)
      → FormatFits fl os o
      → Device.digits_and_format digits o ≡ some (ds, f)
      → FormatFits fl os (some f)
  digits_and_format-Fits [] o ds f h e = absurd (cc (e))
  digits_and_format-Fits (d ∷ digits) none ds f h e = absurd (cc (e))
  digits_and_format-Fits (d ∷ digits) (some g) ds f h e =
      let same : g ≡ f = cc (e) in subst (λ k. FormatFits fl os (some k)) same h

  serial_option-Sound :
      (tok : List ℕ) (c : Conn fl)
      → IsSound c.serial
      → Ensures IsSoundConn (Device.serial_option fl os c tok)
  unfolding Device.serial_option Device.speed_of
  serial_option-Sound tok c h =
      let (digits, rest) =
        Device.digits_and_rest fl os
          (Device.behind_equals tok (Device.behind_word (codes "speed") tok)) in
      set_serial-Sound (Device.speed_of fl os tok) tok c
        (λ ds f e.
          digits_and_format-Fits digits (Device.format rest) ds f (format-Fits fl os rest) e)
        h

  pub serial_options-Sound :
      (toks : List (List ℕ)) (c : Conn fl)
      → IsSound c.serial
      → Ensures IsSoundConn (Device.serial_options fl os c toks)
  unfolding Device.serial_options IsSoundConn
  serial_options-Sound [] c h = h
  serial_options-Sound (tok ∷ toks) c h =
      Ensures->>= IsSoundConn IsSoundConn (Device.serial_option fl os c tok)
        (λ c'. Device.serial_options fl os c' toks) (serial_option-Sound tok c h)
        (λ c' h'. serial_options-Sound toks c' h')
