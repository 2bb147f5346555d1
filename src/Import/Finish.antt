-- ===== src/Import/Finish.antt =====
-- app/ser2net_import.py, `_finish`.
use ser2net.Common.{
  ℕ, Bool, not, ◌&&◌, Option, none, some, List, [], ◌∷◌, ◌++◌, is_nil, bytes_eq, if◌then◌else◌,
}
use ser2net.Common.Texts.{codes}
use ser2net.Config.{Floats, World}
use ser2net.Config.Options.{MappingOptions, trace_file_name}
use ser2net.Import.{Conn, note, one_direction, trace_renamed, second_trace}
use ser2net.Import.Settings.{finish_protocol, finish_access, string_keys}
use ser2net.Import.Strings.{Kind, convert}

-- `d.get(k)`
abbrev pub text_at : List ℕ → List (List ℕ × List ℕ) → Option (List ℕ)
text_at k [] = none
text_at k ((j, v) ∷ items) = let rest = text_at k items in if bytes_eq j k then some v else rest

abbrev pub mod_at : List ℕ → List ℕ → List ((List ℕ × List ℕ) × Bool) → Option Bool
mod_at k l [] = none
mod_at k l (((i, j), v) ∷ items) =
    let rest = mod_at k l items in if bytes_eq i k && bytes_eq j l then some v else rest

-- The modifier of a kind of traces, or else that of all.
abbrev pub or_all : Option Bool → Option Bool → Option Bool
or_all none all = all
or_all (some b) all = some b

abbrev pub label_of : Bool → List ℕ → List ℕ
label_of v3 kind =
    if not v3
    then codes "trace-" ++ kind
    else if bytes_eq kind (codes "both")
    then codes "tb"
    else if bytes_eq kind (codes "read")
    then codes "tr"
    else codes "tw"

abbrev pub first_kind : List (List ℕ) → List (List ℕ × List ℕ) → Option (List ℕ × List ℕ)
first_kind [] traces = none
first_kind (k ∷ kinds) traces = elim (text_at k traces) [
  | some path ↦ some (k, path)
  | none ↦ first_kind kinds traces
]

module _ (fl : Floats) (os : World) where
  abbrev pub put_string : List ℕ → List ℕ → MappingOptions fl → MappingOptions fl
  put_string key v o =
      if bytes_eq key (codes "banner")
      then record o { banner = v }
      else if bytes_eq key (codes "openstr")
      then record o { openstr = v }
      else if bytes_eq key (codes "closestr")
      then record o { closestr = v }
      else record o { closeon = v }

  abbrev pub converted : List ℕ → Conn fl × List ℕ → Conn fl
  converted key (c, v) = record c { options = put_string key v c.options }

  abbrev pub convert_string : List ℕ → Option (List ℕ) → Conn fl → Conn fl
  convert_string key none c = c
  convert_string key (some text) c =
      converted key
        (convert fl c text (if bytes_eq key (codes "banner") then Kind.banner else Kind.bytes) key)

  abbrev pub finish_strings : List (List ℕ) → Conn fl → Conn fl
  finish_strings [] c = c
  finish_strings (k ∷ keys) c = finish_strings keys (convert_string k (text_at k c.strings) c)

  -- The notes about a trace into a file, whose name in the data directory is `name`.
  abbrev pub trace_into : List ℕ → List ℕ → List ℕ → Conn fl → Conn fl
  trace_into kind path name c =
      let traced = record c { options = record c.options { trace_both = path } } in
      let noted =
        if bytes_eq kind (codes "both")
        then traced
        else note fl (one_direction (label_of c.v3 kind)) traced in
      if is_nil name
      then c
      else if bytes_eq name path
      then noted
      else note fl (trace_renamed name path) noted

  abbrev pub second_traces : List ℕ → List (List ℕ × List ℕ) → Conn fl → Conn fl
  second_traces kind [] c = c
  second_traces kind ((other, path) ∷ traces) c =
      second_traces kind traces
        (if bytes_eq other kind then c else note fl (second_trace (label_of c.v3 other)) c)

  abbrev pub put_hexdump : Option Bool → Conn fl → Conn fl
  put_hexdump none c = c
  put_hexdump (some b) c = record c { options = record c.options { trace_hexdump = b } }

  abbrev pub put_timestamp : Option Bool → Conn fl → Conn fl
  put_timestamp none c = c
  put_timestamp (some b) c = record c { options = record c.options { trace_timestamp = b } }

  abbrev pub trace_mods : List ℕ → Conn fl → Conn fl
  trace_mods kind c =
      let mod_of =
        λ (l : List ℕ). or_all (mod_at kind l c.trace_mods) (mod_at (codes "all") l c.trace_mods) in
      put_timestamp (mod_of (codes "timestamp")) (put_hexdump (mod_of (codes "hexdump")) c)

  abbrev pub trace_to : List ℕ → Conn fl × List ℕ → Conn fl
  trace_to kind (c, path) =
      trace_mods kind
        (second_traces kind c.traces (trace_into kind path (trace_file_name os path) c))

  abbrev pub finish_trace : Option (List ℕ × List ℕ) → Conn fl → Conn fl
  finish_trace none c = c
  finish_trace (some (kind, text)) c =
      trace_to kind (convert fl c text Kind.file (label_of c.v3 kind))

  abbrev pub trace_kinds : List (List ℕ)
  trace_kinds = codes "both" ∷ codes "read" ∷ codes "write" ∷ []

  abbrev pub finish_options : Conn fl → Conn fl
  finish_options c =
      let c' = finish_strings string_keys c in finish_trace (first_kind trace_kinds c'.traces) c'

  unfoldable pub finish : Conn fl → Conn fl
  unfolding convert trace_file_name finish_access
  finish c = finish_access fl os (finish_options (finish_protocol fl os c))
