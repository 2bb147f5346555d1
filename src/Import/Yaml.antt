-- ===== src/Import/Yaml.antt =====
-- app/ser2net_import.py, `_Yaml`: the connections of a ser2net.yaml that was parsed. A reference is
-- replaced by the text of its alias.
use ser2net.Common.{
  ℕ, zero, suc, ◌+◌, Bool, true, false, ◌&&◌, ◌||◌, Option, none, some, List, [], ◌∷◌, ◌++◌, length,
  ◌==◌, is_nil, bytes_eq, if◌then◌else◌,
}
use ser2net.Common.Result.{Result, ok, ◌>>=◌}
use ser2net.Common.Texts.{codes, strip, is_any_of}
use ser2net.Config.{Floats, World}
use ser2net.Import.{
  ValueError, Conn, new_conn, Note, note, skip, file_reference, unknown_reference, not_single_value,
  bad_enable, not_a_map, two_ends_needed, options_not_a_map,
}
use ser2net.Import.Text.{lower, bool_of}
use ser2net.Import.Listen.{accepter}
use ser2net.Import.Device.{connector}
use ser2net.Import.Settings.{put_text, option}
use ser2net.Import.Strings.{is_in, text_of}
use ser2net.Import.Finish.{text_at, finish}

-- A parsed value. What is in a sequence is never read.
mutual
  pub data Node : Type 0 where
    scalar : List ℕ → Node
    sequence : Node
    map : Entries → Node

  pub data Entries : Type 0 where
    end : Entries
    entry : List ℕ → Node → Entries → Entries

-- `_YMap.get`: the last value of a key.
abbrev pub get_or : Node → List ℕ → Entries → Node
get_or default key end = default
get_or default key (entry k v entries) =
    get_or (if bytes_eq (lower k) key then v else default) key entries

-- What `_substitute` does at a character: what it writes, how many characters behind it that takes,
-- and its notes.
pub record Action : Type 0 where
  pub out : List ℕ
  pub taken : ℕ
  pub notes : List Note

abbrev pub copied : ℕ → Action
copied ch = record { out = ch ∷ []; taken = 0; notes = [] }

-- The text before the first `close`, if there is one.
abbrev pub text_before : ℕ → List ℕ → Option (List ℕ)
text_before close [] = none
text_before close (c ∷ cs) = elim (c == close) [
  | true ↦ some []
  | false ↦ elim (text_before close cs) [ none ↦ none | some ref ↦ some (c ∷ ref) ]
]

module _ (act : List ℕ) (aliases : List (List ℕ × List ℕ)) where
  abbrev pub alias_or_note : Option (List ℕ) → ℕ → List ℕ → Action
  alias_or_note (some text) ch ref = record { out = text; taken = length ref + 2; notes = [] }
  alias_or_note none ch ref =
      if is_in ch act
      then record (copied ch) { notes = unknown_reference ch ref ∷ [] }
      else copied ch

  abbrev pub reference : ℕ → ℕ → Option (List ℕ) → Action
  reference ch nxt none = copied ch
  reference ch nxt (some ref) =
      if nxt == b'{'
      then record { out = []; taken = length ref + 2; notes = file_reference ch ref ∷ [] }
      else alias_or_note (text_at ref aliases) ch ref

  abbrev pub is_first : ℕ → List ℕ → Bool
  is_first ch [] = false
  is_first ch (c ∷ cs) = c == ch

  -- At `ch`, with what follows.
  abbrev pub at_char : ℕ → List ℕ → Action
  at_char ch [] = copied ch
  at_char ch (nxt ∷ rest) =
      let ours = is_in ch act in
      if ours && nxt == ch
      then record { out = ch ∷ []; taken = 1; notes = [] }
      else if ours && (nxt == b'(' || nxt == b'{') || ch == b'$' && nxt == b'('
      then (if ours && is_first ch rest
          then record { out = ch ∷ nxt ∷ []; taken = 2; notes = [] }
          else reference ch nxt (text_before (if nxt == b'(' then b')' else b'}') rest))
      else copied ch

  -- `_substitute`, when the first characters were taken already: the text and its notes.
  unfoldable pub substitute : ℕ → List ℕ → List ℕ × List Note
  substitute taken [] = ([], [])
  substitute (suc taken) (ch ∷ s) = substitute taken s
  substitute zero (ch ∷ s) =
      let a = at_char ch s in
      let (out, notes) = substitute a.taken s in (a.out ++ out, a.notes ++ notes)

  -- `text`
  abbrev pub text : Node → List ℕ → List ℕ × List Note
  text (scalar s) what = substitute zero s
  text sequence what = ([], not_single_value what ∷ [])
  text (map entries) what = ([], not_single_value what ∷ [])

-- A warning of the import: about a connection or an entry, or one of the file's own.
pub data YamlWarning : Type 0 where
  about : List ℕ → Note → YamlWarning
  default_lost : List ℕ → List ℕ → YamlWarning
  rotator_lost include_not_read unknown_entry : List ℕ → YamlWarning
  admin_lost mixed_versions : YamlWarning

abbrev pub labelled : List ℕ → List Note → List YamlWarning
labelled label [] = []
labelled label (n ∷ notes) = about label n ∷ labelled label notes

module _ (fl : Floats) where
  -- `_Yaml`
  pub record Yaml : Type 0 where
    pub act : List ℕ
    pub aliases : List (List ℕ × List ℕ)
    pub warnings : List YamlWarning
    pub conns : List (Conn fl)
    pub serial_defaults : List (List ℕ × List ℕ)
    pub option_defaults : List (List ℕ × List ℕ)

  -- `self.text(node, c.notes, what)`
  abbrev pub conn_text : Yaml → Node → List ℕ → Conn fl → Conn fl × List ℕ
  conn_text y node what c =
      let (s, notes) = text y.act y.aliases node what in (record c { notes = c.notes ++ notes }, s)

  abbrev pub set_enable : Option Bool → List ℕ → Conn fl → Conn fl
  set_enable none value c = record (note fl (bad_enable value) c) { enabled = false }
  set_enable (some b) value c = record c { enabled = b }

module _ (fl : Floats) (os : World) where
  abbrev pub default_options : List (List ℕ × List ℕ) → Conn fl → Result ValueError (Conn fl)
  default_options [] c = ok c
  default_options ((k, v) ∷ defaults) c = do c' ← option fl os c k v; default_options defaults c'

  -- An option whose value is still a node.
  abbrev pub node_option : Yaml fl → List ℕ → Node → Conn fl → Result ValueError (Conn fl)
  node_option y key value c = let (c', s) = conn_text fl y value key c in option fl os c' key s

  abbrev pub map_options : Yaml fl → Entries → Conn fl → Result ValueError (Conn fl)
  map_options y end c = ok c
  map_options y (entry key value entries) c = do
    c' ← node_option y key value c
    map_options y entries c'

  abbrev pub options_value : Yaml fl → Node → Conn fl → Result ValueError (Conn fl)
  options_value y (map entries) c = map_options y entries c
  options_value y sequence c = ok (note fl options_not_a_map c)
  options_value y (scalar s) c = ok (if is_nil (strip s) then c else note fl options_not_a_map c)

  abbrev pub entry_options : Yaml fl → List ℕ → Node → Conn fl → Result ValueError (Conn fl)
  entry_options y key value c =
      if bytes_eq (lower key) (codes "options")
      then options_value y value c
      else if is_any_of (lower key) (codes "accepter" ∷ codes "connector" ∷ codes "enable" ∷ [])
      then ok c
      else node_option y key value c

  abbrev pub body_options : Yaml fl → Entries → Conn fl → Result ValueError (Conn fl)
  body_options y end c = ok c
  body_options y (entry key value entries) c = do
    c' ← entry_options y key value c
    body_options y entries c'

  abbrev pub enabled_by : Conn fl × List ℕ → Conn fl
  enabled_by (c, value) = set_enable fl (bool_of value) value c

  -- `settings`
  unfoldable pub settings : Yaml fl → Entries → Conn fl → Result ValueError (Conn fl)
  unfolding strip bool_of option substitute
  settings y body c = do
    let enable = get_or (scalar (codes "on")) (codes "enable") body
    c' ← default_options y.option_defaults (enabled_by (conn_text fl y enable (codes "enable") c))
    body_options y body c'

  abbrev pub default_words : List (List ℕ × List ℕ) → List (List ℕ)
  default_words [] = []
  default_words ((k, v) ∷ defaults) = (k ++ (b'=' ∷ v)) ∷ default_words defaults

  abbrev pub named : List ℕ → Conn fl → Conn fl
  named [] c =
      let name = codes "ser2net-" ++ text_of fl c.network.port in
      record c { name = name; label = name }
  named (x ∷ name) c = c

  -- The end of `connection`: the connection, and whether it is imported.
  abbrev pub configured : Yaml fl → Entries → Conn fl × Bool → Result ValueError (Conn fl × Bool)
  configured y body (c, false) = ok (c, false)
  configured y body (c, true) = do c' ← settings y body c; ok (finish fl os c', true)

  abbrev pub with_connector :
      Yaml fl → List ℕ → List ℕ → Entries → Conn fl × Bool → Result ValueError (Conn fl × Bool)
  with_connector y name spec body (c, false) = ok (c, false)
  with_connector y name spec body (c, true) = do
    r ← connector fl os (named name c) spec (default_words y.serial_defaults)
    configured y body r

  abbrev pub with_ends :
      Yaml fl → List ℕ → List ℕ → List ℕ → Entries → Conn fl → Result ValueError (Conn fl × Bool)
  with_ends y name listen device body c =
      if is_nil listen || is_nil device
      then ok (skip fl two_ends_needed c, false)
      else (do r ← accepter fl os c listen; with_connector y name device body r)

  abbrev pub with_body : Yaml fl → List ℕ → Node → Conn fl → Result ValueError (Conn fl × Bool)
  with_body y name (scalar s) c = ok (skip fl not_a_map c, false)
  with_body y name sequence c = ok (skip fl not_a_map c, false)
  with_body y name (map body) c =
      let (c1, listen) =
        conn_text fl y (get_or (scalar []) (codes "accepter") body) (codes "accepter") c in
      let (c2, device) =
        conn_text fl y (get_or (scalar []) (codes "connector") body) (codes "connector") c1 in
      with_ends y name (strip listen) (strip device) body c2

  -- `_notes`, and the connection if it is imported.
  abbrev pub ended : Yaml fl → Conn fl × Bool → Yaml fl
  ended y (c, true) = record y {
    conns = y.conns ++ (c ∷ []);
    warnings = y.warnings ++ labelled c.label c.notes;
  }
  ended y (c, false) = record y { warnings = y.warnings ++ labelled c.label c.skipped }

  abbrev pub alias_name : List ℕ → Yaml fl → Yaml fl
  alias_name [] y = y
  alias_name (x ∷ name) y = record y { aliases = put_text (x ∷ name) (x ∷ name) y.aliases }

  abbrev pub label_for : List ℕ → List ℕ
  label_for [] = codes "a connection without a name"
  label_for (x ∷ name) = x ∷ name

  -- `connection`
  unfoldable pub connection : Yaml fl → List ℕ → Node → Result ValueError (Yaml fl)
  unfolding strip substitute accepter connector settings finish
  connection y name body =
      let y' = alias_name name y in
      (do r ← with_body y' name body (new_conn fl name (label_for name) false); ok (ended y' r))
