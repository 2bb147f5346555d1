-- ===== src/Import/Document/Told.antt =====
-- app/ser2net_import.py, `_Yaml.connection`: a connection that is not imported has a note that says
-- why.
use ser2net.Common.{
  ℕ, ◌<◌, Bool, true, false, ◌||◌, Option, none, some, List, [], ◌∷◌, ◌++◌, length, arith, is_nil,
  bytes_eq, if◌then◌else◌,
}
use ser2net.Common.Result.{ok, Ensures, Ensures->>=, Ensures-any, Ensures-if}
use ser2net.Common.Texts.{codes, is_any_of}
use ser2net.Config.{Floats, World}
use ser2net.Import.{
  Note, Conn, add_once, note_key, note, skip, skipped_for, not_an_accepter, not_a_connector,
  connector_layer_lost, two_ends_needed,
}
use ser2net.Import.Text.{lower, split_gensio, nonempty, layer}
use ser2net.Import.Listen
use ser2net.Import.Listen.{
  strip_all, take_family, host_and_port, accepter, accepter_layers, listen_address, listen_on,
  listen_fields, port_number, LayerStep, listens_here, passed, stopped, after_layer, layer_step,
  net_terminals, other_terminals,
}
use ser2net.Import.Device
use ser2net.Import.Device.{connector}
use ser2net.Import.Finish.{finish}
use ser2net.Import.Yaml
use ser2net.Import.Yaml.{Node, scalar, sequence, map, Entries, Yaml, settings}

module _ (fl : Floats) (os : World) where
  -- The connection is taken further, or it is skipped with a reason.
  abbrev pub IsTold : Conn fl × Bool → Type 0
  IsTold (c, true) = Unit
  IsTold (c, false) = 0 < length c.skipped

  add_once_some : (n : Note) (notes : List Note) → 0 < length (add_once n notes)
  add_once_some n [] = omega (arith)
  add_once_some n (m ∷ notes) = either (bytes_eq (note_key n) (note_key m))
    where
      either : (b : Bool) → 0 < length (if b then m ∷ notes else m ∷ add_once n notes)
      either true = omega (arith)
      either false = omega (arith)

  skip-IsTold : (why : Note) (c : Conn fl) → IsTold (skip fl why c, false)
  skip-IsTold why c = add_once_some (skipped_for why) c.skipped

  listen_on-IsTold :
      (n : Option ℕ) (host port family : List ℕ) (c : Conn fl)
      → IsTold (listen_on fl os n host port family c)
  listen_on-IsTold none host port family c = skip-IsTold _ c
  listen_on-IsTold (some n) host port family c = tt

  listen_fields-IsTold :
      (found : Option (List ℕ × List ℕ × List (List ℕ))) (family : List ℕ) (c : Conn fl)
      → Ensures IsTold (listen_fields fl os found family c)
  listen_fields-IsTold none family c = skip-IsTold _ c
  listen_fields-IsTold (some (host, port, more)) family c =
      let c1 = Listen.note_more fl os host port more c in
      Ensures->>= (λ n. Unit {0}) IsTold (port_number fl os port)
        (λ n. ok (listen_on fl os n host port family c1))
        (Ensures-any (λ n. Unit {0}) (port_number fl os port) (λ n. tt))
        (λ n u. listen_on-IsTold n host port family c1)

  layers-IsTold :
      (spec : List ℕ) (c : Conn fl) (layers : List (List ℕ))
      → Ensures IsTold (accepter_layers fl os spec c layers)
  unfolding accepter_layers listen_address
  layers-IsTold spec c [] = skip-IsTold (not_an_accepter spec) c
  layers-IsTold spec c (part ∷ layers) =
      step (layer_step fl os c part) (λ d. layers-IsTold spec d layers)
    where
      step :
          (s : LayerStep fl os)
          → ((d : Conn fl) → Ensures IsTold (accepter_layers fl os spec d layers))
          → Ensures IsTold
              (after_layer fl os spec c layers (λ d. accepter_layers fl os spec d layers) s)
      step (listens_here d) k =
          let (family, rest) = take_family [] (nonempty (strip_all layers)) in
          listen_fields-IsTold (host_and_port rest) family d
      step (passed d) k = k d
      step stopped k = skip-IsTold (not_an_accepter spec) c

  accepter-IsTold : (c : Conn fl) (spec : List ℕ) → Ensures IsTold (accepter fl os c spec)
  unfolding accepter
  accepter-IsTold c spec = layers-IsTold spec c (split_gensio spec)

  open_device-IsTold :
      (low : List ℕ) (defaults opts toks : List (List ℕ)) (c : Conn fl)
      → Ensures IsTold (Device.open_device fl os low defaults opts toks c)
  open_device-IsTold low defaults opts [] c = skip-IsTold _ c
  open_device-IsTold low defaults opts (device ∷ toks) c =
      Ensures->>= (λ d. Unit {0}) IsTold _ (λ c'. ok (c', true))
        (Ensures-any (λ d. Unit {0})
          (Device.serial_options fl os
            (Device.note_dev fl os low (record c { device = Device.windows_device fl os device }))
            (defaults ++ (opts ++ toks)))
          (λ d. tt))
        (λ d u. tt)

  connector_layers-IsTold :
      (spec : List ℕ) (defaults : List (List ℕ)) (c : Conn fl) (layers : List (List ℕ))
      → Ensures IsTold (Device.connector_layers fl os spec defaults c layers)
  unfolding Device.connector_layers
  connector_layers-IsTold spec defaults c [] = skip-IsTold (not_a_connector spec) c
  connector_layers-IsTold spec defaults c (part ∷ layers) =
      let (name, opts) = layer part in
      Ensures-if IsTold
        (is_any_of (lower name) (codes "serialdev" ∷ codes "sdev" ∷ codes "dev" ∷ []))
        (Device.open_device fl os (lower name) defaults opts (Device.tokens_of layers) c) _
        (open_device-IsTold (lower name) defaults opts (Device.tokens_of layers) c)
        (Ensures-if IsTold
          (is_any_of (lower name) (net_terminals fl os)
            || is_any_of (lower name) (other_terminals fl os))
          (ok (skip fl (not_a_connector spec) c, false)) _ (skip-IsTold (not_a_connector spec) c)
          (connector_layers-IsTold spec defaults (note fl (connector_layer_lost name) c) layers))

  connector-IsTold :
      (c : Conn fl) (spec : List ℕ) (defaults : List (List ℕ))
      → Ensures IsTold (connector fl os c spec defaults)
  unfolding connector
  connector-IsTold c spec defaults = connector_layers-IsTold spec defaults c (split_gensio spec)

  configured-IsTold :
      (y : Yaml fl) (body : Entries) (r : Conn fl × Bool)
      → IsTold r
      → Ensures IsTold (Yaml.configured fl os y body r)
  configured-IsTold y body (c, false) told = told
  configured-IsTold y body (c, true) told =
      Ensures->>= (λ d. Unit {0}) IsTold (settings fl os y body c) (λ d. ok (finish fl os d, true))
        (Ensures-any (λ d. Unit {0}) (settings fl os y body c) (λ d. tt)) (λ d u. tt)

  with_connector-IsTold :
      (y : Yaml fl) (name spec : List ℕ) (body : Entries) (r : Conn fl × Bool)
      → IsTold r
      → Ensures IsTold (Yaml.with_connector fl os y name spec body r)
  with_connector-IsTold y name spec body (c, false) told = told
  with_connector-IsTold y name spec body (c, true) told =
      Ensures->>= IsTold IsTold _ (Yaml.configured fl os y body)
        (connector-IsTold (Yaml.named fl os name c) spec
          (Yaml.default_words fl os y.serial_defaults))
        (configured-IsTold y body)

  with_ends-IsTold :
      (y : Yaml fl) (name listen device : List ℕ) (body : Entries) (c : Conn fl)
      → Ensures IsTold (Yaml.with_ends fl os y name listen device body c)
  with_ends-IsTold y name listen device body c =
      Ensures-if IsTold (is_nil listen || is_nil device) (ok (skip fl two_ends_needed c, false)) _
        (skip-IsTold two_ends_needed c)
        (Ensures->>= IsTold IsTold (accepter fl os c listen)
          (Yaml.with_connector fl os y name device body) (accepter-IsTold c listen)
          (with_connector-IsTold y name device body))

  pub with_body-IsTold :
      (y : Yaml fl) (name : List ℕ) (body : Node) (c : Conn fl)
      → Ensures IsTold (Yaml.with_body fl os y name body c)
  with_body-IsTold y name (scalar s) c = skip-IsTold _ c
  with_body-IsTold y name sequence c = skip-IsTold _ c
  with_body-IsTold y name (map body) c = with_ends-IsTold y name _ _ body _
