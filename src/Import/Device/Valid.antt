-- ===== src/Import/Device/Valid.antt =====
-- app/ser2net_import.py: the serial settings of an imported connection are valid.
use ser2net.Common.{
  ℕ, Bool, true, false, ◌||◌, ◌≡◌, refl, ◌∙◌, ◌⊎◌, inl, inr, List, [], ◌∷◌, ◌++◌, arith, Bool-cases,
  leb, is_nil, bytes_eq, if◌then◌else◌,
}
use ser2net.Common.Int.{pos}
use ser2net.Common.Result.{ok, err, Ensures, Ensures->>=, Ensures-if, Ensures-ok}
use ser2net.Common.Texts.{codes, is_any_of, is_one_of}
use ser2net.Config.{bad_baudrate, Floats, Scalar, World, integer}
use ser2net.Config.Serial.{SerialSettings, flowcontrols, validate}
use ser2net.Import.{Conn, new_conn, note, skip, not_a_connector, connector_layer_lost}
use ser2net.Import.Text.{lower, split_gensio, layer}
use ser2net.Import.Listen.{net_terminals, other_terminals}
use ser2net.Import.Settings.{finish_flow}
use ser2net.Import.Device
use ser2net.Import.Device.{connector}
use ser2net.Import.Device.Sound.{IsSound, IsSoundConn, Sound-if, serial_options-Sound}

module _ (fl : Floats) (os : World) where
  -- The settings are valid, or their speed is 0.
  abbrev pub IsValidButSpeed : SerialSettings fl → Type 0
  IsValidButSpeed s =
      (validate fl s ≡ ok tt)
      ⊎ ((validate fl s ≡ err bad_baudrate) × (s.baudrate ≡ integer (pos 0)))

  sound_valid :
      (s : SerialSettings fl)
      → is_nil s.port ≡ false
      → is_one_of s.flowcontrol flowcontrols ≡ true
      → IsSound fl os s
      → IsValidButSpeed s
  unfolding validate
  sound_valid s p f ((n, e), size, parity, stop, rts, dtr, r) = elim (Bool-cases (leb 1 n)) [
    | inl l ↦ inl (rw (p, e, l, size, parity, stop, f, rts, dtr, r) refl)
    | inr l ↦ inr (rw (p, e, l) refl, e ∙ ap_zero n l)
  ]
    where
      ap_zero : (m : ℕ) → leb 1 m ≡ false → ◌≡◌ {A = Scalar fl} (integer (pos m)) (integer (pos 0))
      ap_zero m h = let z : m ≡ 0 = ground (arith, h) in rw (z) refl

  IsSoundPair : Conn fl × Bool → Type 0
  IsSoundPair r = IsSound fl os r.0.serial

  open_device-Sound :
      (low : List ℕ) (defaults opts toks : List (List ℕ)) (c : Conn fl)
      → IsSound fl os c.serial
      → Ensures IsSoundPair (Device.open_device fl os low defaults opts toks c)
  unfolding IsSoundPair IsSoundConn
  open_device-Sound low defaults opts [] c h = h
  open_device-Sound low defaults opts (device ∷ toks) c h =
      let c1 = record c { device = Device.windows_device fl os device } in
      Ensures->>= (IsSoundConn fl os) IsSoundPair
        (Device.serial_options fl os (Device.note_dev fl os low c1) (defaults ++ (opts ++ toks)))
        (λ c'. ok (c', true))
        (serial_options-Sound fl os (defaults ++ (opts ++ toks)) (Device.note_dev fl os low c1)
          (Sound-if fl os (bytes_eq low (codes "dev")) (note fl Device.dev_as_serial c1) c1 h h))
        (λ c' h'. h')

  connector_layers-Sound :
      (spec : List ℕ) (defaults : List (List ℕ)) (c : Conn fl) (layers : List (List ℕ))
      → IsSound fl os c.serial
      → Ensures IsSoundPair (Device.connector_layers fl os spec defaults c layers)
  unfolding Device.connector_layers IsSoundPair
  connector_layers-Sound spec defaults c [] h = h
  connector_layers-Sound spec defaults c (part ∷ layers) h =
      let (name, opts) = layer part in
      let c' = note fl (connector_layer_lost name) c in
      Ensures-if IsSoundPair
        (is_any_of (lower name) (codes "serialdev" ∷ codes "sdev" ∷ codes "dev" ∷ []))
        (Device.open_device fl os (lower name) defaults opts (Device.tokens_of layers) c) _
        (open_device-Sound (lower name) defaults opts (Device.tokens_of layers) c h)
        (Ensures-if IsSoundPair
          (is_any_of (lower name) (net_terminals fl os)
            || is_any_of (lower name) (other_terminals fl os))
          (ok (skip fl (not_a_connector spec) c, false))
          (Device.connector_layers fl os spec defaults c' layers) h
          (connector_layers-Sound spec defaults c' layers h))

  finish_flow-Sound :
      (c : Conn fl) (device : List ℕ)
      → is_nil device ≡ false
      → IsSound fl os c.serial
      → IsValidButSpeed (record (finish_flow fl os c).serial { port = device })
  finish_flow-Sound c device p h =
      sound_valid (record (finish_flow fl os c).serial { port = device }) p
        (known c.rtscts c.xonxoff) h
    where
      known :
          (r x : Bool)
          → is_one_of (if r then "rtscts" else if x then "xonxoff" else "none") flowcontrols ≡ true
      known true x = refl
      known false true = refl
      known false false = refl

  -- Whatever its connector and the default options of its file say, the serial settings that a
  -- connection is imported with are valid on any device, except for a speed of 0, unless the import
  -- raises.
  pub connector-Valid :
      (name label spec device : List ℕ) (v3 : Bool) (defaults : List (List ℕ)) (r : Conn fl × Bool)
      → connector fl os (new_conn fl name label v3) spec defaults ≡ ok r
      → is_nil device ≡ false
      → IsValidButSpeed (record (finish_flow fl os r.0).serial { port = device })
  unfolding connector IsSoundPair
  connector-Valid name label spec device v3 defaults r e p =
      let c = new_conn fl name label v3 in
      finish_flow-Sound r.0 device p (
        Ensures-ok IsSoundPair (connector fl os c spec defaults) r e (
          connector_layers-Sound spec defaults c (split_gensio spec)
            ((9600, refl), refl, refl, refl, refl, refl, refl)))
