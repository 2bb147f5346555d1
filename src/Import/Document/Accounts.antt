-- ===== src/Import/Document/Accounts.antt =====
-- app/ser2net_import.py, `_from_yaml`: each connection of the file is imported or warned of.
use ser2net.Common.{
  ℕ, suc, ◌+◌, ◌≤◌, ◌≡◌, refl, ap, Bool, true, false, ◌||◌, not, List, [], ◌∷◌, length,
  length-append, arith, bytes_eq, if◌then◌else◌,
}
use ser2net.Common.Result.{Result, ok, err, ◌>>=◌, Ensures, Ensures->>=, Ensures-if, Ensures-ok}
use ser2net.Common.Texts.{codes}
use ser2net.Config.{Floats, World}
use ser2net.Import.{ValueError, Conn, Note, new_conn}
use ser2net.Import.Text.{lower}
use ser2net.Import.Yaml
use ser2net.Import.Yaml.{
  Node, scalar, sequence, map, Entries, end, entry, labelled, YamlWarning, Yaml, connection,
}
use ser2net.Import.Document
use ser2net.Import.Document.{
  TopEntry, Document, all_entries, Refusal, raised_by, plain_entry, top_entry, read_entries,
  from_yaml, new_yaml, uses_any, v1_keys, v2_keys,
}
use ser2net.Import.Document.Told.{IsTold, with_body-IsTold}
use ser2net.Import.Document.Plain.{
  Accounts, Accounts-trans, Accounts-refl, Accounts-same, plain_entry-Accounts,
}

-- The connections of a file: an entry `connection` is one, the entries below `connections` are some.
abbrev pub entry_count : Entries → ℕ
entry_count end = 0
entry_count (entry name value entries) = 1 + entry_count entries

abbrev pub node_count : Node → ℕ
node_count (scalar s) = 0
node_count sequence = 0
node_count (map entries) = entry_count entries

abbrev pub connections_of : TopEntry → ℕ
connections_of e =
    if bytes_eq (lower e.key) (codes "connection")
    then 1
    else if bytes_eq (lower e.key) (codes "connections")
    then node_count e.value
    else 0

abbrev pub connection_count : List TopEntry → ℕ
connection_count [] = 0
connection_count (e ∷ entries) = connections_of e + connection_count entries

module _ (fl : Floats) (os : World) where
  length-labelled :
      (label : List ℕ) (notes : List Note) → length (labelled label notes) ≡ length notes
  length-labelled label [] = refl
  length-labelled label (n ∷ notes) = ap suc (length-labelled label notes)

  ended-Accounts :
      (y : Yaml fl) (r : Conn fl × Bool) → IsTold fl os r → Accounts fl 1 y (Yaml.ended fl os y r)
  unfolding Accounts
  ended-Accounts y (c, true) told =
      let added = length-append {0} y.conns (c ∷ []) in
      let warned = length-append {0} y.warnings (labelled c.label c.notes) in
      (omega (arith), omega (arith))
  ended-Accounts y (c, false) told =
      let warned = length-append {0} y.warnings (labelled c.label c.skipped) in
      let each = length-labelled c.label c.skipped in (omega (arith), omega (arith))

  alias_name-Accounts :
      (name : List ℕ) (y : Yaml fl) → Accounts fl 0 y (Yaml.alias_name fl os name y)
  alias_name-Accounts [] y = Accounts-refl fl y
  alias_name-Accounts (x ∷ name) y = Accounts-same fl y _ refl refl

  connection-Accounts :
      (y : Yaml fl) (name : List ℕ) (body : Node)
      → Ensures (Accounts fl 1 y) (connection fl os y name body)
  unfolding connection
  connection-Accounts y name body =
      let y1 = Yaml.alias_name fl os name y in
      let c0 = new_conn fl name (Yaml.label_for fl os name) false in
      Ensures->>= (IsTold fl os) (Accounts fl 1 y) (Yaml.with_body fl os y1 name body c0)
        (λ r. ok (Yaml.ended fl os y1 r)) (with_body-IsTold fl os y1 name body c0)
        (λ r told.
          Accounts-trans fl 0 1 y y1 _ (alias_name-Accounts name y) (ended-Accounts y1 r told))

  after-Accounts :
      (m n : ℕ) (y y1 : Yaml fl) (r : Result ValueError (Yaml fl))
      → Accounts fl m y y1
      → Ensures (Accounts fl n y1) r
      → Ensures (Accounts fl (m + n) y) r
  after-Accounts m n y y1 (ok y2) h k = Accounts-trans fl m n y y1 y2 h k
  after-Accounts m n y y1 (err e) h k = tt

  connections-Accounts :
      (entries : Entries) (y : Yaml fl)
      → Ensures (Accounts fl (entry_count entries) y) (Document.connections fl os entries y)
  connections-Accounts end y = Accounts-refl fl y
  connections-Accounts (entry name body entries) y =
      Ensures->>= (Accounts fl 1 y) (Accounts fl (1 + entry_count entries) y)
        (connection fl os y name body) (Document.connections fl os entries)
        (connection-Accounts y name body)
        (λ y1 k.
          after-Accounts 1 (entry_count entries) y y1 (Document.connections fl os entries y1) k
            (connections-Accounts entries y1))

  connections_in-Accounts :
      (value : Node) (y : Yaml fl)
      → Ensures (Accounts fl (node_count value) y) (Document.connections_in fl os value y)
  connections_in-Accounts (scalar s) y = Accounts-refl fl y
  connections_in-Accounts sequence y = Accounts-refl fl y
  connections_in-Accounts (map entries) y = connections-Accounts entries y

  -- The count and the result of an entry branch on the same key.
  Accounts-branch :
      (b : Bool) (m n : ℕ) (y : Yaml fl) (r s : Result ValueError (Yaml fl))
      → Ensures (Accounts fl m y) r
      → Ensures (Accounts fl n y) s
      → Ensures (Accounts fl (if b then m else n) y) (if b then r else s)
  Accounts-branch true m n y r s h k = h
  Accounts-branch false m n y r s h k = k

  top_entry-Accounts :
      (e : TopEntry) (y : Yaml fl)
      → Ensures (Accounts fl (connections_of e) y) (top_entry fl os e y)
  unfolding top_entry
  top_entry-Accounts e y =
      Accounts-branch (bytes_eq (lower e.key) (codes "connection")) 1 _ y
        (connection fl os y e.anchor e.value) _ (connection-Accounts y e.anchor e.value)
        (Accounts-branch (bytes_eq (lower e.key) (codes "connections")) (node_count e.value) 0 y
          (Document.connections_in fl os e.value y) (ok (plain_entry fl e y))
          (connections_in-Accounts e.value y) (plain_entry-Accounts fl e y))

  read_entries-Accounts :
      (entries : List TopEntry) (y : Yaml fl)
      → Ensures (Accounts fl (connection_count entries) y) (read_entries fl os entries y)
  unfolding read_entries
  read_entries-Accounts [] y = Accounts-refl fl y
  read_entries-Accounts (e ∷ entries) y =
      Ensures->>= (Accounts fl (connections_of e) y)
        (Accounts fl (connection_count (e ∷ entries)) y) (top_entry fl os e y)
        (read_entries fl os entries) (top_entry-Accounts e y)
        (λ y1 k.
          after-Accounts (connections_of e) (connection_count entries) y y1
            (read_entries fl os entries y1) k (read_entries-Accounts entries y1))

  abbrev IsAccounted : ℕ → List (Conn fl) × List YamlWarning → Type 0
  IsAccounted n (conns, warnings) = (length conns ≤ n) × (n ≤ length conns + length warnings)

  accounted :
      (n : ℕ) (v1 v2 : Bool) (r : Result ValueError (Yaml fl))
      → Ensures (Accounts fl n (new_yaml fl os v1 v2)) r
      → Ensures (IsAccounted n) (◌>>=◌ {A = Yaml fl} (raised_by r) (λ y. ok (y.conns, y.warnings)))
  unfolding Accounts
  accounted n v1 v2 (ok y) h = (omega (arith, h.0), omega (arith, h.1))
  accounted n v1 v2 (err e) h = tt

  -- If the documents of a ser2net.yaml are imported, then at most as many connections are imported as
  -- they list under `connection` and `connections`, and there are at least as many warnings as there
  -- are listed connections that are not imported.
  pub from_yaml-accounts :
      (docs : List Document) (label : List ℕ) (conns : List (Conn fl)) (warnings : List YamlWarning)
      → from_yaml fl os docs label ≡ ok (conns, warnings)
      → (length conns ≤ connection_count (all_entries docs))
        × (connection_count (all_entries docs) ≤ length conns + length warnings)
  unfolding from_yaml
  from_yaml-accounts docs label conns warnings e =
      let entries = all_entries docs in
      let v1 = uses_any v1_keys entries in
      let v2 = uses_any v2_keys entries in
      Ensures-ok (IsAccounted (connection_count entries)) (from_yaml fl os docs label)
        (conns, warnings) e
        (Ensures-if (IsAccounted (connection_count entries)) (not (v1 || v2)) _ _ tt (
          accounted (connection_count entries) v1 v2
            (read_entries fl os entries (new_yaml fl os v1 v2))
            (read_entries-Accounts entries (new_yaml fl os v1 v2))))
