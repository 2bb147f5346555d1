-- ===== src/Import/Narrow/Opened.antt =====
-- app/ser2net_import.py: the device side leaves the bind address and what holds a connection.
use ser2net.Common.{
  ℕ, Bool, true, false, ◌&&◌, ◌||◌, refl, Option, none, some, List, [], ◌∷◌, ◌++◌, bytes_eq,
}
use ser2net.Common.Result.{ok, Ensures, Ensures->>=, Ensures-any, Ensures-if}
use ser2net.Common.Texts.{codes, is_any_of}
use Prim.Native.String.{String}
use ser2net.Config.{Floats, World}
use ser2net.Import.{
  not_on_off, dev_as_serial, Conn, note, skip, drop_option, not_a_connector, connector_layer_lost,
}
use ser2net.Import.Text.{lower, bool_of, split_gensio, layer}
use ser2net.Import.Listen.{int_of, key_and_value, net_terminals, other_terminals}
use ser2net.Import.Device
use ser2net.Import.Device.{connector}
use ser2net.Import.Narrow.Kept.{Keeps, Keeps-if, Ensures-Keeps}

module _ (fl : Floats) (os : World) where
  set_flag-Keeps :
      (flag : Bool) (low value tok : List ℕ) (c : Conn fl)
      → Keeps fl os c (Device.set_flag fl os flag low value tok c)
  set_flag-Keeps flag low value tok c =
      Keeps-if fl os (bytes_eq low (codes "xonxoff")) c (record c { xonxoff = flag }) _ (refl, refl)
        (Keeps-if fl os (bytes_eq low (codes "rtscts")) c (record c { rtscts = flag }) _
          (refl, refl)
          (Keeps-if fl os _ c (Device.set_hangup fl os flag c) _ (refl, refl)
            (Keeps-if fl os (bytes_eq low (codes "nobreak")) c (Device.set_nobreak fl os flag c) _
              (refl, refl)
              (Keeps-if fl os (is_any_of low (codes "dtr" ∷ codes "rts" ∷ [])) c
                (Device.set_line fl os low (Device.line_state fl os flag value) tok c) _
                (line (Device.line_state fl os flag value))
                (Keeps-if fl os (bytes_eq low (codes "rs485")) c
                  (Device.note_rs485 fl os value tok c) _
                  (Keeps-if fl os _ c c _ (refl, refl) (refl, refl))
                  (Keeps-if fl os (bytes_eq low (codes "rdonly")) c (Device.set_rdonly fl os flag c)
                    (Device.note_local fl os flag c)
                    (Keeps-if fl os flag c _ c (refl, refl) (refl, refl))
                    (Keeps-if fl os flag c c _ (refl, refl) (refl, refl))))))))
    where
      put : (state : String) → Keeps fl os c (Device.put_line fl os low state c)
      put state =
          Keeps-if fl os (bytes_eq low (codes "dtr")) c
            (record c { serial = record c.serial { dtr_on_open = state } })
            (record c { serial = record c.serial { rts_on_open = state } }) (refl, refl)
            (refl, refl)

      line : (state : List ℕ) → Keeps fl os c (Device.set_line fl os low state tok c)
      line state =
          Keeps-if fl os (bytes_eq state (codes "on")) c (Device.put_line fl os low "on" c) _
            (put "on")
            (Keeps-if fl os (bytes_eq state (codes "off")) c (Device.put_line fl os low "off" c)
              (note fl (not_on_off tok) c) (put "off") (refl, refl))

  value_flag-Keeps :
      (flag : Bool) (value : Option (List ℕ)) (low tok : List ℕ) (c : Conn fl)
      → Keeps fl os c (Device.value_flag fl os flag value low tok c)
  value_flag-Keeps flag none low tok c = set_flag-Keeps flag low [] tok c
  value_flag-Keeps flag (some value) low tok c =
      Keeps-if fl os (flag && is_any_of low Device.serial_flags) c
        (Device.given_flag fl os (bool_of value) low value tok c)
        (Device.set_flag fl os flag low value tok c) (given (bool_of value))
        (set_flag-Keeps flag low value tok c)
    where
      given : (b : Option Bool) → Keeps fl os c (Device.given_flag fl os b low value tok c)
      given none = (refl, refl)
      given (some b) = set_flag-Keeps b low value tok c

  set_serial-Keeps :
      (found : Option (List ℕ × Device.Format)) (tok : List ℕ) (c : Conn fl)
      → Ensures (Keeps fl os c) (Device.set_serial fl os found tok c)
  set_serial-Keeps (some (digits, f)) tok c =
      Ensures->>= (λ n. Unit {0}) (Keeps fl os c) (int_of fl os digits)
        (λ n. ok (Device.set_speed fl os n f c))
        (Ensures-any (λ n. Unit {0}) (int_of fl os digits) (λ n. tt)) (λ n u. (refl, refl))
  set_serial-Keeps none tok c =
      let (name, value) = key_and_value fl os tok in
      let (low, flag) = Device.without_minus fl os (lower name) in
      Keeps-if fl os
        (is_any_of low (Device.serial_flags ++ (codes "dtr" ∷ codes "rts" ∷ codes "rs485" ∷ []))) c
        (Device.value_flag fl os flag value low tok c) _ (value_flag-Keeps flag value low tok c)
        (Keeps-if fl os _ c c (drop_option fl tok c) (refl, refl)
          (Keeps-if fl os _ c c _ (refl, refl) (refl, refl)))

  serial_options-Keeps :
      (toks : List (List ℕ)) (c : Conn fl)
      → Ensures (Keeps fl os c) (Device.serial_options fl os c toks)
  unfolding Device.serial_options Device.serial_option
  serial_options-Keeps [] c = (refl, refl)
  serial_options-Keeps (tok ∷ toks) c =
      Ensures->>= (Keeps fl os c) (Keeps fl os c) (Device.serial_option fl os c tok)
        (λ c'. Device.serial_options fl os c' toks)
        (set_serial-Keeps (Device.speed_of fl os tok) tok c)
        (λ c' k.
          Ensures-Keeps fl os c c' k (Device.serial_options fl os c' toks)
            (serial_options-Keeps toks c'))

  abbrev pub KeepsPair : Conn fl → Conn fl × Bool → Type 0
  KeepsPair c r = Keeps fl os c r.0

  open_device-Keeps :
      (low : List ℕ) (defaults opts toks : List (List ℕ)) (c : Conn fl)
      → Ensures (KeepsPair c) (Device.open_device fl os low defaults opts toks c)
  open_device-Keeps low defaults opts [] c = (refl, refl)
  open_device-Keeps low defaults opts (device ∷ toks) c =
      let c1 = record c { device = Device.windows_device fl os device } in
      let c2 = Device.note_dev fl os low c1 in
      let noted : Keeps fl os c c2 =
        Keeps-if fl os (bytes_eq low (codes "dev")) c (note fl dev_as_serial c1) c1 (refl, refl)
          (refl, refl) in
      Ensures->>= (Keeps fl os c) (KeepsPair c)
        (Device.serial_options fl os c2 (defaults ++ (opts ++ toks))) (λ c'. ok (c', true))
        (Ensures-Keeps fl os c c2 noted
          (Device.serial_options fl os c2 (defaults ++ (opts ++ toks)))
          (serial_options-Keeps (defaults ++ (opts ++ toks)) c2))
        (λ c' k. k)

  connector_layers-Keeps :
      (spec : List ℕ) (defaults : List (List ℕ)) (c : Conn fl) (layers : List (List ℕ))
      → Ensures (KeepsPair c) (Device.connector_layers fl os spec defaults c layers)
  unfolding Device.connector_layers
  connector_layers-Keeps spec defaults c [] = (refl, refl)
  connector_layers-Keeps spec defaults c (part ∷ layers) =
      let (name, opts) = layer part in
      let c' = note fl (connector_layer_lost name) c in
      Ensures-if (KeepsPair c)
        (is_any_of (lower name) (codes "serialdev" ∷ codes "sdev" ∷ codes "dev" ∷ []))
        (Device.open_device fl os (lower name) defaults opts (Device.tokens_of layers) c) _
        (open_device-Keeps (lower name) defaults opts (Device.tokens_of layers) c)
        (Ensures-if (KeepsPair c)
          (is_any_of (lower name) (net_terminals fl os)
            || is_any_of (lower name) (other_terminals fl os))
          (ok (skip fl (not_a_connector spec) c, false))
          (Device.connector_layers fl os spec defaults c' layers) (refl, refl)
          (connector_layers-Keeps spec defaults c' layers))

  pub connector-Keeps :
      (c : Conn fl) (spec : List ℕ) (defaults : List (List ℕ))
      → Ensures (KeepsPair c) (connector fl os c spec defaults)
  unfolding connector
  connector-Keeps c spec defaults = connector_layers-Keeps spec defaults c (split_gensio spec)
