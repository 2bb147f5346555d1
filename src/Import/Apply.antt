-- ===== src/Import/Apply.antt =====
-- app/importer.py, `apply_import`. The new ids of `uuid` and the equality of two mappings' dicts are
-- parameters.
pub mod Ids
use ser2net.Common.{
  ℕ, Bool, not, Option, none, some, List, [], ◌∷◌, ◌++◌, map, bytes_eq, if◌then◌else◌,
}
use ser2net.Common.Result.{Result, ok, err}
use ser2net.Common.Texts.{same, is_one_of}
use Prim.Native.String.{String}
use ser2net.Config.{Floats, World}
use ser2net.Config.Options.{normalise, scalar}
use ser2net.Config.Mapping.{MappingConfig}

-- `Import mode must be one of ...`
pub data ImportError : Type 0 where
  bad_import_mode : ImportError

-- `_new_id()`, given the ids in use, and `a.to_dict() == b.to_dict()`.
pub record Identity (fl : Floats) : Type 0 where
  pub new_id : List String → String
  pub equal : MappingConfig fl → MappingConfig fl → Bool

module _ (fl : Floats) (os : World) (lib : Identity fl) where
  open lib use {new_id, equal}

  abbrev pub ids : List (MappingConfig fl) → List String
  ids = map (λ m. m.id)

  -- `MappingConfig.from_dict(m.to_dict())`, of a mapping that `from_dict` made before: its id is not
  -- empty, and the interval of its points is not 0, for which `from_dict` would take others.
  unfoldable pub copy_of : MappingConfig fl → MappingConfig fl
  unfolding normalise
  copy_of m = record m { options = normalise fl os (scalar m.options.idle_timeout_s) m.options }

  abbrev pub find_id : String → List (MappingConfig fl) → Option (MappingConfig fl)
  find_id id [] = none
  find_id id (e ∷ existing) = if same e.id id then some e else find_id id existing

  abbrev pub find_name : List ℕ → List (MappingConfig fl) → Option (MappingConfig fl)
  find_name name [] = none
  find_name name (e ∷ existing) = if bytes_eq e.name name then some e else find_name name existing

  abbrev pub or_named :
      Option (MappingConfig fl) → Option (MappingConfig fl) → Option (MappingConfig fl)
  or_named none named = named
  or_named (some e) named = some e

  unfoldable pub match_mapping :
      List (MappingConfig fl) → MappingConfig fl → Option (MappingConfig fl)
  match_mapping existing m = or_named (find_id m.id existing) (find_name m.name existing)

  abbrev pub with_id : MappingConfig fl → String → MappingConfig fl
  with_id m id = record m { id = id }

  -- `if m.id in ...: m.id = _new_id()`
  abbrev pub unused_id : List String → MappingConfig fl → MappingConfig fl
  unused_id used m = if is_one_of m.id used then with_id m (new_id used) else m

  unfoldable pub replace_all : List String → List (MappingConfig fl) → List (MappingConfig fl)
  unfolding copy_of
  replace_all seen [] = []
  replace_all seen (m ∷ incoming) =
      let m' = unused_id seen (copy_of m) in m' ∷ replace_all (m'.id ∷ seen) incoming

  -- `result[result.index(target)] = m`
  unfoldable pub replace_first :
      MappingConfig fl → MappingConfig fl → List (MappingConfig fl) → List (MappingConfig fl)
  replace_first target m [] = []
  replace_first target m (e ∷ result) =
      let rest = replace_first target m result in if equal e target then m ∷ result else e ∷ rest

  -- The result so far, and what was added or changed.
  abbrev pub Merged : Type 0
  Merged = List (MappingConfig fl) × List (MappingConfig fl)

  abbrev pub place : Option (MappingConfig fl) → MappingConfig fl → Merged → Merged
  place (some target) m (result, touched) =
      let m' = with_id m target.id in
      if equal m' target
      then (result, touched)
      else (replace_first target m' result, touched ++ (m' ∷ []))
  place none m (result, touched) =
      let m' = unused_id (ids result) m in (result ++ (m' ∷ []), touched ++ (m' ∷ []))

  unfoldable pub merge_one : MappingConfig fl → Merged → Merged
  unfolding copy_of match_mapping replace_first
  merge_one m merged = let m' = copy_of m in place (match_mapping merged.0 m') m' merged

  unfoldable pub merge_all : List (MappingConfig fl) → Merged → Merged
  unfolding merge_one
  merge_all [] merged = merged
  merge_all (m ∷ incoming) merged = merge_all incoming (merge_one m merged)

  abbrev pub modes : List String
  modes = "merge" ∷ "replace" ∷ []

  unfoldable pub apply_import :
      List (MappingConfig fl) → List (MappingConfig fl) → String → Result ImportError Merged
  unfolding copy_of replace_all merge_all
  apply_import current incoming mode =
      if not (is_one_of mode modes)
      then err bad_import_mode
      else if same mode "replace"
      then ok (replace_all [] incoming, replace_all [] incoming)
      else ok (merge_all incoming (map copy_of current, []))
