-- ===== src/Import/Document.antt =====
-- app/ser2net_import.py, `_Yaml` and `_from_yaml`: the entries of a ser2net.yaml that was parsed.
pub mod Told
pub mod Plain
pub mod Accounts
use ser2net.Common.{
  ℕ, Bool, false, ◌&&◌, ◌||◌, not, List, [], ◌∷◌, ◌++◌, is_nil, bytes_eq, if◌then◌else◌,
}
use ser2net.Common.Result.{Result, ok, err, ◌>>=◌}
use ser2net.Common.Texts.{codes, strip, is_any_of}
use ser2net.Config.{Floats, World}
use ser2net.Import.{ValueError, Conn}
use ser2net.Import.Text.{lower}
use ser2net.Import.Settings.{put_text}
use ser2net.Import.Yaml.{
  Node, scalar, sequence, map, Entries, end, entry, get_or, text, labelled, YamlWarning,
  default_lost, rotator_lost, include_not_read, unknown_entry, admin_lost, mixed_versions, Yaml,
  connection,
}

-- An entry of a document: its anchor is empty without one.
pub record TopEntry : Type 0 where
  pub key : List ℕ
  pub value : Node
  pub anchor : List ℕ

-- A document of the file: the entries of a mapping, or another value, which is not read.
pub data Document : Type 0 where
  mapping : List TopEntry → Document
  other : Document

abbrev pub all_entries : List Document → List TopEntry
all_entries [] = []
all_entries (mapping entries ∷ docs) = entries ++ all_entries docs
all_entries (other ∷ docs) = all_entries docs

-- What ends an import.
pub data Refusal : Type 0 where
  not_ser2net : List ℕ → Refusal
  raised : ValueError → Refusal

abbrev pub raised_by {ℓ} : {A : Type ℓ} → Result ValueError A → Result Refusal A
raised_by (ok a) = ok a
raised_by (err e) = err (raised e)

abbrev pub v1_keys : List (List ℕ)
v1_keys =
    codes "connection"
    ∷ codes "define"
    ∷ codes "default"
    ∷ codes "delete_default"
    ∷ codes "rotator"
    ∷ codes "led"
    ∷ codes "admin"
    ∷ []

abbrev pub v2_keys : List (List ℕ)
v2_keys =
    codes "connections"
    ∷ codes "defines"
    ∷ codes "defaults"
    ∷ codes "delete_defaults"
    ∷ codes "rotators"
    ∷ codes "leds"
    ∷ codes "admins"
    ∷ []

abbrev pub serial_default_keys : List (List ℕ)
serial_default_keys =
    codes "speed"
    ∷ codes "nobreak"
    ∷ codes "rtscts"
    ∷ codes "xonxoff"
    ∷ codes "local"
    ∷ codes "hangup-when-done"
    ∷ codes "dtr"
    ∷ codes "rts"
    ∷ codes "custspeed"
    ∷ codes "rs485"
    ∷ codes "uucplock"
    ∷ codes "flock"
    ∷ []

abbrev pub option_default_keys : List (List ℕ)
option_default_keys =
    codes "kickolduser"
    ∷ codes "max-connections"
    ∷ codes "remaddr"
    ∷ codes "telnet-brk-on-sync"
    ∷ codes "chardelay"
    ∷ codes "trace-hexdump"
    ∷ codes "trace-timestamp"
    ∷ codes "trace-both-hexdump"
    ∷ codes "trace-both-timestamp"
    ∷ []

abbrev pub uses_any : List (List ℕ) → List TopEntry → Bool
uses_any keys [] = false
uses_any keys (e ∷ entries) = is_any_of (lower e.key) keys || uses_any keys entries

-- `d.pop(k, None)`
abbrev pub pop_text : List ℕ → List (List ℕ × List ℕ) → List (List ℕ × List ℕ)
pop_text k [] = []
pop_text k ((j, w) ∷ items) =
    let rest = pop_text k items in if bytes_eq j k then items else (j, w) ∷ rest

abbrev pub names_of : Node → List (List ℕ)
names_of (scalar s) = []
names_of sequence = []
names_of (map end) = []
names_of (map (entry name value entries)) = name ∷ names_of (map entries)

abbrev pub or_unnamed : List (List ℕ) → List (List ℕ)
or_unnamed [] = codes "(unnamed)" ∷ []
or_unnamed (n ∷ names) = n ∷ names

module _ (fl : Floats) where
  abbrev pub warn : YamlWarning → Yaml fl → Yaml fl
  warn w y = record y { warnings = y.warnings ++ (w ∷ []) }

  -- `gtext`
  abbrev pub gtext : Yaml fl → Node → List ℕ → Yaml fl × List ℕ
  gtext y node what =
      let (s, notes) = text y.act y.aliases node what in
      (record y { warnings = y.warnings ++ labelled what notes }, s)

  abbrev pub define : List ℕ → Node → Yaml fl → Yaml fl
  define name value y =
      let (y', s) = gtext y value (codes "define " ++ name) in
      record y' { aliases = put_text name s y'.aliases }

  abbrev pub define_anchor : List ℕ → Node → Yaml fl → Yaml fl
  define_anchor [] value y = y
  define_anchor (x ∷ anchor) value y = define (x ∷ anchor) value y

  abbrev pub defines : Entries → Yaml fl → Yaml fl
  defines end y = y
  defines (entry name value entries) y = defines entries (define name value y)

  -- `default`
  unfoldable pub set_default : List ℕ → List ℕ → List ℕ → Yaml fl → Yaml fl
  unfolding strip
  set_default name value class y =
      let n = lower (strip name) in
      let cls = lower (strip class) in
      if is_nil n
        || not (is_any_of cls ([] ∷ codes "serialdev" ∷ codes "sdev" ∷ codes "ser2net" ∷ []))
      then y
      else if is_any_of n serial_default_keys && not (bytes_eq cls (codes "ser2net"))
      then record y { serial_defaults = put_text n (strip value) y.serial_defaults }
      else if is_any_of n option_default_keys && is_any_of cls ([] ∷ codes "ser2net" ∷ [])
      then record y { option_defaults = put_text n (strip value) y.option_defaults }
      else warn (default_lost name value) y

  -- `delete_default`
  unfoldable pub delete_default : List ℕ → Yaml fl → Yaml fl
  unfolding strip
  delete_default name y = record y {
    serial_defaults = pop_text (lower (strip name)) y.serial_defaults;
    option_defaults = pop_text (lower (strip name)) y.option_defaults;
  }

  abbrev pub field_text : List ℕ → List ℕ → Entries → Yaml fl → Yaml fl × List ℕ
  field_text field what body y = gtext y (get_or (scalar []) field body) what

  abbrev pub default_entry : Entries → Yaml fl → Yaml fl
  default_entry body y =
      let (y1, name) = field_text (codes "name") (codes "default") body y in
      let (y2, value) = field_text (codes "value") (codes "default") body y1 in
      let (y3, class) = field_text (codes "class") (codes "default") body y2 in
      set_default name value class y3

  abbrev pub default_of : List ℕ → Node → Yaml fl → Yaml fl
  default_of name (scalar s) y = y
  default_of name sequence y = y
  default_of name (map body) y =
      let (y1, value) = field_text (codes "value") (codes "default " ++ name) body y in
      let (y2, class) = field_text (codes "class") (codes "default " ++ name) body y1 in
      set_default name value class y2

  abbrev pub defaults : Entries → Yaml fl → Yaml fl
  defaults end y = y
  defaults (entry name body entries) y = defaults entries (default_of name body y)

  abbrev pub delete_entry : Entries → Yaml fl → Yaml fl
  delete_entry body y =
      let (y', name) = field_text (codes "name") (codes "delete_default") body y in
      delete_default name y'

  abbrev pub delete_defaults : List (List ℕ) → Yaml fl → Yaml fl
  delete_defaults [] y = y
  delete_defaults (name ∷ names) y = delete_defaults names (delete_default name y)

  -- What is done with a mapping; another value is not read.
  abbrev pub with_map : (Entries → Yaml fl → Yaml fl) → Node → Yaml fl → Yaml fl
  with_map use_entries (scalar s) y = y
  with_map use_entries sequence y = y
  with_map use_entries (map entries) y = use_entries entries y

  abbrev pub rotators : List (List ℕ) → Yaml fl → Yaml fl
  rotators [] y = y
  rotators (name ∷ names) y = rotators names (warn (rotator_lost name) y)

  abbrev pub include : Node → Yaml fl → Yaml fl
  include value y = let (y', s) = gtext y value (codes "include") in warn (include_not_read s) y'

  -- `entry`, of an entry that has no connections.
  unfoldable pub plain_entry : TopEntry → Yaml fl → Yaml fl
  unfolding set_default delete_default
  plain_entry e y =
      let k = lower e.key in
      if bytes_eq k (codes "define")
      then define_anchor e.anchor e.value y
      else if bytes_eq k (codes "defines")
      then with_map defines e.value y
      else if bytes_eq k (codes "default")
      then with_map default_entry e.value y
      else if bytes_eq k (codes "defaults")
      then with_map defaults e.value y
      else if bytes_eq k (codes "delete_default")
      then with_map delete_entry e.value y
      else if bytes_eq k (codes "delete_defaults")
      then delete_defaults (names_of e.value) y
      else if bytes_eq k (codes "rotator")
      then rotators (e.anchor ∷ []) y
      else if bytes_eq k (codes "rotators")
      then rotators (or_unnamed (names_of e.value)) y
      else if is_any_of k (codes "admin" ∷ codes "admins" ∷ [])
      then warn admin_lost y
      else if bytes_eq k (codes "include")
      then include e.value y
      else if is_any_of k (codes "led" ∷ codes "leds" ∷ [])
      then y
      else warn (unknown_entry e.key) y

module _ (fl : Floats) (os : World) where
  abbrev pub connections : Entries → Yaml fl → Result ValueError (Yaml fl)
  connections end y = ok y
  connections (entry name body entries) y = do
    y' ← connection fl os y name body
    connections entries y'

  abbrev pub connections_in : Node → Yaml fl → Result ValueError (Yaml fl)
  connections_in (scalar s) y = ok y
  connections_in sequence y = ok y
  connections_in (map entries) y = connections entries y

  -- `entry`
  unfoldable pub top_entry : TopEntry → Yaml fl → Result ValueError (Yaml fl)
  unfolding plain_entry connection
  top_entry e y =
      if bytes_eq (lower e.key) (codes "connection")
      then connection fl os y e.anchor e.value
      else if bytes_eq (lower e.key) (codes "connections")
      then connections_in e.value y
      else ok (plain_entry fl e y)

  unfoldable pub read_entries : List TopEntry → Yaml fl → Result ValueError (Yaml fl)
  unfolding top_entry
  read_entries [] y = ok y
  read_entries (e ∷ entries) y = do y' ← top_entry e y; read_entries entries y'

  -- `_Yaml.__init__`, with what `_from_yaml` passes and warns of.
  abbrev pub new_yaml : Bool → Bool → Yaml fl
  new_yaml v1 v2 = record {
    act = if v2 && not v1 then codes "=" else if v2 then codes "*=" else codes "*";
    aliases = [];
    warnings = if v1 && v2 then mixed_versions ∷ [] else [];
    conns = [];
    serial_defaults = [];
    option_defaults = [];
  }

  -- `_from_yaml`, of the documents of the file.
  unfoldable pub from_yaml :
      List Document → List ℕ → Result Refusal (List (Conn fl) × List YamlWarning)
  unfolding read_entries
  from_yaml docs label =
      let entries = all_entries docs in
      let v1 = uses_any v1_keys entries in
      let v2 = uses_any v2_keys entries in
      if not (v1 || v2)
      then err (not_ser2net label)
      else (do y ← raised_by (read_entries entries (new_yaml v1 v2)); ok (y.conns, y.warnings))
