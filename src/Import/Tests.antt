-- ===== src/Import/Tests.antt =====
-- Imports at concrete connections, and the theorems at them.
use ser2net.Common.{
  ℕ, suc, ◌+◌, ◌<◌, ◌≤◌, false, ◌&&◌, ◌≡◌, refl, ap, ◌≢◌, inl, inr, List, [], ◌∷◌, map as list_map,
  arith, Bool-cases, bytes_eq, true, Pairwise,
}
use ser2net.Common.Result.{ok, err}
use ser2net.Common.Int.{pos}
use ser2net.Common.Texts.{codes, strip, same, same_iff, is_one_of}
use ser2net.Common.Decimal.{decimal}
use Prim.Native.String.{String}
use ser2net.Config.Mapping.{MappingConfig}
use ser2net.Import.Apply.{Identity, ids, Merged, apply_import}
use ser2net.Import.Apply.Ids.{AreDistinct, Keeps, apply_import-ids}
use ser2net.Config.{integer}
use ser2net.Config.Tests.{whole_floats, small_world}
use ser2net.Config.App.{check_mappings}
use ser2net.Import.{
  Conn, new_conn, mapping_of, no_int, left_out, dropped_options, skipped_for, not_a_map,
}
use ser2net.Import.Listen.{number}
use ser2net.Import.Device.{connector}
use ser2net.Import.Device.Valid.{IsValidButSpeed, connector-Valid}
use ser2net.Import.Settings.{finish_flow, option, idle_timeout}
use ser2net.Import.Narrow.{IsNarrow}
use ser2net.Import.Yaml.{scalar, map, Entries, end, entry, Yaml, alias_name, connection, about}
use ser2net.Import.Narrow.Accepted.{host_of}
use ser2net.Import.Narrow.Connection.{accepter_of, connection-IsNarrow}
use ser2net.Import.Yaml.{YamlWarning, mixed_versions, admin_lost}
use ser2net.Import.Document.{Document, mapping, other, from_yaml}
use ser2net.Import.Document.Accounts.{from_yaml-accounts}
use ser2net.Import.Assemble.{assemble, port_taken, renamed, device_taken}
use ser2net.Import.Assemble.Accepted.{assemble-check_mappings}

abbrev conn_on : ℕ → List ℕ → Conn whole_floats
conn_on port device = record (new_conn whole_floats (codes "con") (codes "con") false) {
  device = device;
  network = record (new_conn whole_floats [] [] false).network { port = integer (pos port) };
}

-- Three connections: the second has the device of the first, the third its port.
abbrev three_conns : List (Conn whole_floats)
three_conns =
    conn_on 2000 (codes "/dev/ttyS0")
    ∷ conn_on 2001 (codes "/dev/ttyS0")
    ∷ conn_on 2000 (codes "/dev/ttyS1")
    ∷ []

abbrev same_id : Conn whole_floats → String
same_id c = "m"

two_imported : assemble whole_floats small_world three_conns [] ≡ (
  conn_on 2000 (codes "/dev/ttyS0")
      ∷ record (conn_on 2001 (codes "/dev/ttyS0")) { name = codes "con (2)"; enabled = false }
      ∷ [],
  port_taken (codes "con") (codes "con")
      ∷ renamed (codes "con") (codes "con (2)")
      ∷ device_taken (codes "con") (codes "/dev/ttyS0") (codes "con")
      ∷ [],
)
unfolding assemble decimal
two_imported = refl

assemble-check_mappings_example :
    (check_mappings whole_floats small_world [] [] (
        list_map
          (λ c. mapping_of whole_floats small_world (same_id c) c)
          (assemble whole_floats small_world three_conns []).0)
      ≡ ok tt)
    × Pairwise (λ c d. c.name ≢ d.name) (assemble whole_floats small_world three_conns []).0
assemble-check_mappings_example =
    assemble-check_mappings whole_floats small_world same_id three_conns []

abbrev followed_by : String → String → String
followed_by String.[] t = t
followed_by (String.◌∷◌ c s) t = String.◌∷◌ c (followed_by s t)

-- New ids that are longer than those in use.
abbrev joined : List String → String
joined [] = ""
joined (i ∷ used) = followed_by i (joined used)

size : String → ℕ
size String.[] = 0
size (String.◌∷◌ c s) = suc (size s)

size-append : (s t : String) → size (followed_by s t) ≡ size s + size t
unfolding size
size-append String.[] t = omega arith
size-append (String.◌∷◌ c s) t = omega (arith, size-append s t)

longer_is_new :
    (s : String) (used : List String) → size (joined used) < size s → is_one_of s used ≡ false
longer_is_new s [] h = refl
longer_is_new s (i ∷ used) h = elim (Bool-cases (same s i)) [
  | inl e ↦ absurd (omega (arith, size-append i (joined used), ap size ((same_iff s i).0 e)))
  | inr e ↦ rw (e) (longer_is_new s used (omega (arith, size-append i (joined used))))
]

abbrev small_identity : Identity whole_floats
small_identity = record {
  new_id = λ used. followed_by "x" (joined used);
  equal = λ a b. same a.id b.id && bytes_eq a.name b.name;
}

longest_is_new : (used : List String) → is_one_of (small_identity.new_id used) used ≡ false
unfolding size
longest_is_new used =
    longer_is_new (followed_by "x" (joined used)) used
      (omega (arith, size-append "x" (joined used)))

equal_ids : (a b : MappingConfig whole_floats) → small_identity.equal a b ≡ true → a.id ≡ b.id
equal_ids a b h = elim (Bool-cases (same a.id b.id)) [
  | inl e ↦ (same_iff a.id b.id).0 e
  | inr e ↦ absurd (cc (h, e))
]

abbrev imported : MappingConfig whole_floats
imported = mapping_of whole_floats small_world "m" (conn_on 2000 (codes "/dev/ttyS0"))

apply_import-ids_example :
    ((merged : Merged whole_floats small_world small_identity)
      → apply_import whole_floats small_world small_identity
          (imported ∷ [])
          (imported ∷ imported ∷ [])
          "replace"
        ≡ ok merged
      → AreDistinct (ids whole_floats small_world small_identity merged.0))
    × (AreDistinct (ids whole_floats small_world small_identity (imported ∷ []))
        → (merged : Merged whole_floats small_world small_identity)
        → apply_import whole_floats small_world small_identity
            (imported ∷ [])
            (imported ∷ imported ∷ [])
            "merge"
          ≡ ok merged
        → Keeps
            (ids whole_floats small_world small_identity (imported ∷ []))
            (ids whole_floats small_world small_identity merged.0)
          × AreDistinct (ids whole_floats small_world small_identity merged.0))
apply_import-ids_example =
    apply_import-ids whole_floats small_world small_identity longest_is_new equal_ids
      (imported ∷ []) (imported ∷ imported ∷ [])

-- A connection on any address, with an idle timeout, a trace and a banner.
abbrev body : Entries
body = entry (codes "accepter") (scalar (codes "telnet(rfc2217),tcp,0.0.0.0,2000")) (
    entry (codes "connector") (scalar (codes "serialdev,/dev/=(dev),19200E71,dtr=off,frob")) (
      entry (codes "options")
        (map (
          entry (codes "banner") (scalar (codes "at \\d on \\Y"))
            (entry (codes "timeout") (scalar (codes "60")) end)))
        end))

abbrev read_before : Yaml whole_floats
read_before = record {
  act = codes "=";
  aliases = (codes "dev", codes "ttyS0") ∷ [];
  warnings = [];
  conns = [];
  serial_defaults = [];
  option_defaults = [];
}

abbrev blank : Conn whole_floats
blank = new_conn whole_floats (codes "con") (codes "con") false

abbrev read_conn : Conn whole_floats
read_conn = record blank {
  device = codes "/dev/ttyS0";
  serial = record blank.serial {
    baudrate = integer (pos 19200);
    parity = "E";
    bytesize = integer (pos 7);
    dtr_on_open = "off";
  };
  network = record blank.network {
    protocol = "rfc2217";
    port = integer (pos 2000);
    bind_ip = codes "0.0.0.0";
  };
  options = record blank.options { idle_timeout_s = integer (pos 60); banner = codes "at \\d on " };
  strings = (codes "banner", codes "at \\d on \\Y") ∷ [];
  dropped = codes "frob" ∷ [];
  notes =
      left_out false (codes "banner") (codes "\\Y" ∷ []) ∷ dropped_options (codes "frob" ∷ []) ∷ [];
}

abbrev read_after : Yaml whole_floats
read_after = record read_before {
  aliases = (codes "dev", codes "ttyS0") ∷ (codes "con", codes "con") ∷ [];
  warnings =
      about (codes "con") (left_out false (codes "banner") (codes "\\Y" ∷ []))
      ∷ about (codes "con") (dropped_options (codes "frob" ∷ []))
      ∷ [];
  conns = read_conn ∷ [];
}

body_read : connection whole_floats small_world read_before (codes "con") (map body) ≡ ok read_after
unfolding connection strip
body_read = refl

connection-IsNarrow_example :
    IsNarrow whole_floats small_world
      (host_of whole_floats small_world (
        accepter_of whole_floats small_world
          (alias_name whole_floats small_world (codes "con") read_before)
          (map body)))
      read_conn.network.bind_ip
connection-IsNarrow_example =
    connection-IsNarrow whole_floats small_world read_before read_after (codes "con") (map body)
      read_conn body_read refl refl

host_read :
    host_of whole_floats small_world (codes "telnet(rfc2217),tcp,0.0.0.0,2000") ≡ codes "0.0.0.0"
unfolding host_of strip
host_read = refl

-- A superscript two is a digit for `str.isdigit`, and none for `int`.
superscript_raises :
    option whole_floats small_world blank (codes "timeout") (0xB2 ∷ []) ≡ err no_int
unfolding option idle_timeout strip number
superscript_raises = refl

abbrev read_serial : Conn whole_floats
read_serial = record blank {
  device = codes "/dev/ttyS0";
  serial = read_conn.serial;
  dropped = codes "frob" ∷ [];
}

serial_read :
    connector whole_floats small_world blank (codes "serialdev,/dev/ttyS0,19200E71,dtr=off,frob") []
    ≡ ok (read_serial, true)
unfolding connector strip
serial_read = refl

connector-Valid_example :
    IsValidButSpeed whole_floats small_world
      (record (finish_flow whole_floats small_world read_serial).serial {
        port = codes "/dev/ttyS0";
      })
connector-Valid_example =
    connector-Valid whole_floats small_world (codes "con") (codes "con")
      (codes "serialdev,/dev/ttyS0,19200E71,dtr=off,frob") (codes "/dev/ttyS0") false []
      (read_serial, true) serial_read refl

-- A file of both versions: an alias, a connection, a connection that is no mapping, an admin entry.
abbrev mixed_file : List Document
mixed_file =
    mapping (
      record { key = codes "define"; value = scalar (codes "ttyS0"); anchor = codes "dev" }
      ∷ record { key = codes "connection"; value = map body; anchor = codes "con" }
      ∷ [])
    ∷ other
    ∷ mapping (
        record {
          key = codes "Connections";
          value = map (entry (codes "con2") (scalar (codes "x")) end);
          anchor = [];
        }
        ∷ record { key = codes "admin"; value = scalar []; anchor = [] }
        ∷ [])
    ∷ []

abbrev mixed_warnings : List YamlWarning
mixed_warnings =
    mixed_versions
    ∷ about (codes "con") (left_out false (codes "banner") (codes "\\Y" ∷ []))
    ∷ about (codes "con") (dropped_options (codes "frob" ∷ []))
    ∷ about (codes "con2") (skipped_for not_a_map)
    ∷ admin_lost
    ∷ []

mixed_read :
    from_yaml whole_floats small_world mixed_file (codes "ser2net.yaml")
    ≡ ok (read_conn ∷ [], mixed_warnings)
unfolding from_yaml strip
mixed_read = refl

from_yaml-accounts_example : (1 ≤ 2) × (2 ≤ 6)
from_yaml-accounts_example =
    from_yaml-accounts whole_floats small_world mixed_file (codes "ser2net.yaml") (read_conn ∷ [])
      mixed_warnings mixed_read
