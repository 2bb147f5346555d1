-- ===== src/Import/Assemble.antt =====
-- app/ser2net_import.py, `_assemble`: from the connections read to the mappings imported.
pub mod Names
pub mod Kept
pub mod Settled
pub mod Accepted
use ser2net.Common.{
  ℕ, zero, suc, false, Option, none, some, List, [], ◌∷◌, ◌++◌, length, bytes_eq, if◌then◌else◌,
}
use ser2net.Common.Result.{Result, ok, err}
use ser2net.Common.Texts.{is_any_of, codes}
use ser2net.Common.Decimal.{str}
use ser2net.Config.{ConfigError, Floats, World}
use ser2net.Config.Mapping.{validate}
use ser2net.Config.App.{Listener, clashes, listener}
use ser2net.Import.{Conn, mapping_of}

pub data Warning : Type 0 where
  invalid : List ℕ → ConfigError → Warning
  port_taken : List ℕ → List ℕ → Warning
  renamed : List ℕ → List ℕ → Warning
  device_taken : List ℕ → List ℕ → List ℕ → Warning

-- `f"{base} ({k})"`
abbrev pub numbered : List ℕ → ℕ → List ℕ
numbered base k = base ++ (codes " (" ++ (str k ++ codes ")"))

-- `while c.name in used`, on fuel: the names tried differ, so that one more than `used` is enough.
unfoldable pub free_name : ℕ → List (List ℕ) → List ℕ → ℕ → List ℕ → List ℕ
free_name zero used base k name = name
free_name (suc fuel) used base k name =
    let later = free_name fuel used base (suc k) (numbered base (suc k)) in
    if is_any_of name used then later else name

abbrev pub unique_name : List (List ℕ) → List ℕ → List ℕ
unique_name used base = free_name (suc (length used)) used base 1 base

-- `owner.get(device)`
abbrev pub owner_of : List ℕ → List (List ℕ × List ℕ) → Option (List ℕ)
owner_of device [] = none
owner_of device ((d, name) ∷ owners) =
    if bytes_eq d device then some name else owner_of device owners

module _ (fl : Floats) where
  -- The connections kept, with the warnings.
  abbrev pub Kept : Type 0
  Kept = List (Conn fl) × List Warning

  abbrev pub conn_listener : World → Conn fl → Listener
  conn_listener os c = listener fl (mapping_of fl os "" c)

  -- `next((o for o in kept if ...), None)`
  unfoldable pub taken_by : World → List (Conn fl) → Conn fl → Option (Conn fl)
  unfolding clashes
  taken_by os [] c = none
  taken_by os (o ∷ kept) c =
      if clashes (conn_listener os o) (conn_listener os c) then some o else taken_by os kept c

  abbrev pub keep_free : Option (Conn fl) → Conn fl → Kept → Kept
  keep_free none c (kept, ws) = (kept ++ (c ∷ []), ws)
  keep_free (some o) c (kept, ws) = (kept, ws ++ (port_taken c.label o.name ∷ []))

  abbrev pub keep_valid : World → Result ConfigError (Unit {0}) → Conn fl → Kept → Kept
  keep_valid os (err e) c (kept, ws) = (kept, ws ++ (invalid c.label e ∷ []))
  keep_valid os (ok done) c (kept, ws) = keep_free (taken_by os kept c) c (kept, ws)

  -- The first loop.
  unfoldable pub keep_all : World → List (Conn fl) → Kept → Kept
  unfolding validate mapping_of taken_by
  keep_all os [] k = k
  keep_all os (c ∷ cs) k =
      keep_all os cs (keep_valid os (validate fl os (mapping_of fl os "" c)) c k)

  -- `if c.enabled and c.device in owner: ... elif c.enabled: ...`
  abbrev pub give_device :
      Option (List ℕ) → Conn fl → List (List ℕ × List ℕ) → Conn fl × List (List ℕ × List ℕ)
  give_device none c owners = (c, if c.enabled then (c.device, c.name) ∷ owners else owners)
  give_device (some name) c owners = (record c { enabled = false }, owners)

  abbrev pub rename_warning : Conn fl → List ℕ → List Warning
  rename_warning c name = if bytes_eq name c.name then [] else renamed c.label name ∷ []

  abbrev pub device_warning : Option (List ℕ) → Conn fl → List Warning
  device_warning none c = []
  device_warning (some other) c = if c.enabled then device_taken c.label c.device other ∷ [] else []

  -- The second loop, with `used` and `owner`.
  unfoldable pub settle_all : List (List ℕ) → List (List ℕ × List ℕ) → List (Conn fl) → Kept
  unfolding free_name
  settle_all used owners [] = ([], [])
  settle_all used owners (c ∷ cs) =
      let name = unique_name used c.name in
      let other = owner_of c.device owners in
      let (c', owners') = give_device other (record c { name = name }) owners in
      let (later, ws) = settle_all (name ∷ used) owners' cs in
      (c' ∷ later, rename_warning c name ++ (device_warning other c ++ ws))

  -- The mappings, and the warnings after those that were there.
  unfoldable pub assemble : World → List (Conn fl) → List Warning → Kept
  unfolding keep_all settle_all
  assemble os conns warnings =
      let (kept, ws) = keep_all os conns ([], warnings) in
      let (mappings, more) = settle_all [] [] kept in (mappings, ws ++ more)
