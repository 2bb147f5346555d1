-- ===== src/Import/Narrow/Configured.antt =====
-- app/ser2net_import.py, `_Yaml.settings`: the options of a connection leave its bind address.
use ser2net.Common.{
  ℕ, Bool, true, false, refl, Option, none, some, List, [], ◌∷◌, is_nil, bytes_eq, if◌then◌else◌,
}
use ser2net.Common.Result.{Result, ok, ◌>>=◌, Ensures, Ensures->>=, Ensures-if}
use ser2net.Common.Texts.{codes, strip, is_any_of}
use ser2net.Config.{Floats, World}
use ser2net.Import.{ValueError, Conn, note, options_not_a_map}
use ser2net.Import.Text.{lower, bool_of}
use ser2net.Import.Settings.{option}
use ser2net.Import.Yaml
use ser2net.Import.Yaml.{
  Node, scalar, sequence, map, Entries, end, entry, get_or, text, Yaml, conn_text, settings,
  connection,
}
use ser2net.Import.Narrow.Kept.{Keeps, Ensures-Keeps, option-Keeps}

module _ (fl : Floats) (os : World) where
  -- One step of the options after another.
  then-Keeps :
      (c : Conn fl) (first : Result ValueError (Conn fl))
      (rest : Conn fl → Result ValueError (Conn fl))
      → Ensures (Keeps fl os c) first
      → ((c' : Conn fl) → Ensures (Keeps fl os c') (rest c'))
      → Ensures (Keeps fl os c) (first >>= rest)
  then-Keeps c first rest h k =
      Ensures->>= (Keeps fl os c) (Keeps fl os c) first rest h
        (λ c' keeps. Ensures-Keeps fl os c c' keeps (rest c') (k c'))

  default_options-Keeps :
      (defaults : List (List ℕ × List ℕ)) (c : Conn fl)
      → Ensures (Keeps fl os c) (Yaml.default_options fl os defaults c)
  default_options-Keeps [] c = (refl, refl)
  default_options-Keeps ((k, v) ∷ defaults) c =
      then-Keeps c (option fl os c k v) (Yaml.default_options fl os defaults)
        (option-Keeps fl os c k v) (default_options-Keeps defaults)

  node_option-Keeps :
      (y : Yaml fl) (key : List ℕ) (value : Node) (c : Conn fl)
      → Ensures (Keeps fl os c) (Yaml.node_option fl os y key value c)
  node_option-Keeps y key value c =
      let (c', s) = conn_text fl y value key c in option-Keeps fl os c' key s

  map_options-Keeps :
      (y : Yaml fl) (entries : Entries) (c : Conn fl)
      → Ensures (Keeps fl os c) (Yaml.map_options fl os y entries c)
  map_options-Keeps y end c = (refl, refl)
  map_options-Keeps y (entry key value entries) c =
      then-Keeps c (Yaml.node_option fl os y key value c) (Yaml.map_options fl os y entries)
        (node_option-Keeps y key value c) (map_options-Keeps y entries)

  entry_options-Keeps :
      (y : Yaml fl) (key : List ℕ) (value : Node) (c : Conn fl)
      → Ensures (Keeps fl os c) (Yaml.entry_options fl os y key value c)
  entry_options-Keeps y key value c =
      Ensures-if (Keeps fl os c) (bytes_eq (lower key) (codes "options"))
        (Yaml.options_value fl os y value c) _ (of_value value)
        (Ensures-if (Keeps fl os c)
          (is_any_of (lower key) (codes "accepter" ∷ codes "connector" ∷ codes "enable" ∷ []))
          (ok c) (Yaml.node_option fl os y key value c) (refl, refl)
          (node_option-Keeps y key value c))
    where
      of_value : (v : Node) → Ensures (Keeps fl os c) (Yaml.options_value fl os y v c)
      of_value (map entries) = map_options-Keeps y entries c
      of_value sequence = (refl, refl)
      of_value (scalar s) = blank (is_nil (strip s))
        where
          blank : (b : Bool) → Keeps fl os c (if b then c else note fl options_not_a_map c)
          blank true = (refl, refl)
          blank false = (refl, refl)

  body_options-Keeps :
      (y : Yaml fl) (body : Entries) (c : Conn fl)
      → Ensures (Keeps fl os c) (Yaml.body_options fl os y body c)
  body_options-Keeps y end c = (refl, refl)
  body_options-Keeps y (entry key value entries) c =
      then-Keeps c (Yaml.entry_options fl os y key value c) (Yaml.body_options fl os y entries)
        (entry_options-Keeps y key value c) (body_options-Keeps y entries)

  pub settings-Keeps :
      (y : Yaml fl) (body : Entries) (c : Conn fl)
      → Ensures (Keeps fl os c) (settings fl os y body c)
  unfolding settings
  settings-Keeps y body c =
      let (c1, value) =
        conn_text fl y (get_or (scalar (codes "on")) (codes "enable") body) (codes "enable") c in
      let c2 = Yaml.set_enable fl (bool_of value) value c1 in
      then-Keeps c (Yaml.default_options fl os y.option_defaults c2)
        (Yaml.body_options fl os y body)
        (Ensures-Keeps fl os c c2 (flag value c1 (bool_of value))
          (Yaml.default_options fl os y.option_defaults c2)
          (default_options-Keeps y.option_defaults c2))
        (body_options-Keeps y body)
    where
      flag :
          (value : List ℕ) (d : Conn fl) (b : Option Bool)
          → Keeps fl os d (Yaml.set_enable fl b value d)
      flag value d none = (refl, refl)
      flag value d (some b) = (refl, refl)
