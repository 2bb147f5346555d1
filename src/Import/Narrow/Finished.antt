-- ===== src/Import/Narrow/Finished.antt =====
-- app/ser2net_import.py: `_finish` and the bind address.
use ser2net.Common.{
  ℕ, zero, Bool, true, false, not, ◌&&◌, ◌≡◌, refl, sym, ◌∙◌, Option, none, some, List, [], ◌∷◌,
  is_nil, bytes_eq, if◌then◌else◌,
}
use ser2net.Common.Int.{pos}
use ser2net.Common.Texts.{codes, same}
use ser2net.Config.{Floats, World, integer, at_least_int}
use ser2net.Config.Options.{trace_file_name}
use ser2net.Import.{
  Conn, Note, note, one_flow_control, no_protocol_over_udp, rfc2217_single, remaddr_lost,
  one_direction, trace_renamed, second_trace,
}
use ser2net.Import.Settings
use ser2net.Import.Settings.{
  finish_protocol, finish_access, hold_access, held, note_dropped, string_keys,
}
use ser2net.Import.Strings.{Kind, convert, escapes, is_banner, escape_lines, note_fixed, note_lost}
use ser2net.Import.Finish
use ser2net.Import.Finish.{text_at, mod_at, or_all, label_of, first_kind, finish}
use ser2net.Import.Narrow.Kept.{Keeps, Keeps-if, Keeps-trans}
use ser2net.Import.Narrow.Held.{finish_access_enabled}

module _ (fl : Floats) (os : World) where
  finish_flow-Keeps : (c : Conn fl) → Keeps fl os c (Settings.finish_flow fl os c)
  finish_flow-Keeps c =
      Keeps-if fl os (c.rtscts && c.xonxoff) c (note fl one_flow_control c) c (refl, refl)
        (refl, refl)

  finish_udp-Keeps : (c : Conn fl) → Keeps fl os c (Settings.finish_udp fl os c)
  finish_udp-Keeps c =
      Keeps-if fl os (same c.network.mode "udp" && not (same c.network.protocol "raw")) c
        (record (note fl (no_protocol_over_udp c.network.protocol) c) {
          network = record c.network { protocol = "raw" };
        })
        c (refl, refl) (refl, refl)

  finish_rfc2217-Keeps : (c : Conn fl) → Keeps fl os c (Settings.finish_rfc2217 fl os c)
  finish_rfc2217-Keeps c =
      Keeps-if fl os
        (same c.network.protocol "rfc2217" && at_least_int fl 2 c.network.max_connections) c
        (record (note fl rfc2217_single c) {
          network = record c.network { max_connections = integer (pos 1) };
        })
        c (refl, refl) (refl, refl)

  finish_protocol-Keeps : (c : Conn fl) → Keeps fl os c (finish_protocol fl os c)
  finish_protocol-Keeps c =
      let c1 = Settings.finish_flow fl os c in
      let c2 = Settings.finish_udp fl os c1 in
      Keeps-trans fl os c c2 (Settings.finish_rfc2217 fl os c2)
        (Keeps-trans fl os c c1 c2 (finish_flow-Keeps c) (finish_udp-Keeps c1))
        (finish_rfc2217-Keeps c2)

  finish_access-bind_ip :
      (c : Conn fl) → (finish_access fl os c).network.bind_ip ≡ c.network.bind_ip
  unfolding finish_access
  finish_access-bind_ip c =
      let c1 = hold_access fl os c in
      let c2 = held fl os c1.hold c1 in
      noted c2.dropped c2
      ∙ kept c1.hold c1
      ∙ given (c.access_given && is_nil c.network.allowed_client_ips)
    where
      noted :
          (dropped : List (List ℕ)) (d : Conn fl)
          → (note_dropped fl os dropped d).network.bind_ip ≡ d.network.bind_ip
      noted [] d = refl
      noted (o ∷ dropped) d = refl

      kept : (o : Option Note) (d : Conn fl) → (held fl os o d).network.bind_ip ≡ d.network.bind_ip
      kept none d = refl
      kept (some why) d = refl

      given :
          (b : Bool)
          → (if b then record c { hold = some remaddr_lost } else c).network.bind_ip
            ≡ c.network.bind_ip
      given true = refl
      given false = refl

  convert-Keeps :
      (c : Conn fl) (text : List ℕ) (kind : Kind) (what : List ℕ)
      → Keeps fl os c (convert fl c text kind what).0
  unfolding convert
  convert-Keeps c text kind what =
      let r = escapes fl c kind zero (if is_banner kind then escape_lines text else text) in
      let c1 = note_fixed fl what r.fixed c in
      Keeps-trans fl os c c1 (note_lost fl kind what r.lost c1) (fixed_kept r.fixed)
        (lost_kept r.lost c1)
    where
      fixed_kept : (fixed : List (List ℕ)) → Keeps fl os c (note_fixed fl what fixed c)
      fixed_kept [] = (refl, refl)
      fixed_kept (e ∷ fixed) = (refl, refl)

      lost_kept :
          (lost : List (List ℕ)) (d : Conn fl) → Keeps fl os d (note_lost fl kind what lost d)
      lost_kept [] d = (refl, refl)
      lost_kept (e ∷ lost) d = (refl, refl)

  finish_strings-Keeps :
      (keys : List (List ℕ)) (c : Conn fl) → Keeps fl os c (Finish.finish_strings fl os keys c)
  finish_strings-Keeps [] c = (refl, refl)
  finish_strings-Keeps (k ∷ keys) c =
      let c' = Finish.convert_string fl os k (text_at k c.strings) c in
      Keeps-trans fl os c c' (Finish.finish_strings fl os keys c')
        (string_kept (text_at k c.strings)) (finish_strings-Keeps keys c')
    where
      string_kept : (text : Option (List ℕ)) → Keeps fl os c (Finish.convert_string fl os k text c)
      string_kept none = (refl, refl)
      string_kept (some text) =
          convert-Keeps c text (if bytes_eq k (codes "banner") then Kind.banner else Kind.bytes) k

  trace_into-Keeps :
      (kind path name : List ℕ) (c : Conn fl)
      → Keeps fl os c (Finish.trace_into fl os kind path name c)
  trace_into-Keeps kind path name c =
      let traced = record c { options = record c.options { trace_both = path } } in
      let noted =
        if bytes_eq kind (codes "both")
        then traced
        else note fl (one_direction (label_of c.v3 kind)) traced in
      let kept : Keeps fl os c noted =
        Keeps-if fl os (bytes_eq kind (codes "both")) c traced _ (refl, refl) (refl, refl) in
      Keeps-if fl os (is_nil name) c c _ (refl, refl)
        (Keeps-if fl os (bytes_eq name path) c noted (note fl (trace_renamed name path) noted) kept
          kept)

  second_traces-Keeps :
      (kind : List ℕ) (traces : List (List ℕ × List ℕ)) (c : Conn fl)
      → Keeps fl os c (Finish.second_traces fl os kind traces c)
  second_traces-Keeps kind [] c = (refl, refl)
  second_traces-Keeps kind ((other, path) ∷ traces) c =
      let c' = if bytes_eq other kind then c else note fl (second_trace (label_of c.v3 other)) c in
      Keeps-trans fl os c c' (Finish.second_traces fl os kind traces c')
        (Keeps-if fl os (bytes_eq other kind) c c _ (refl, refl) (refl, refl))
        (second_traces-Keeps kind traces c')

  trace_mods-Keeps : (kind : List ℕ) (c : Conn fl) → Keeps fl os c (Finish.trace_mods fl os kind c)
  trace_mods-Keeps kind c =
      put_kept
        (or_all (mod_at kind (codes "timestamp") c.trace_mods)
          (mod_at (codes "all") (codes "timestamp") c.trace_mods))
        (or_all (mod_at kind (codes "hexdump") c.trace_mods)
          (mod_at (codes "all") (codes "hexdump") c.trace_mods))
    where
      put_kept :
          (t h : Option Bool)
          → Keeps fl os c (Finish.put_timestamp fl os t (Finish.put_hexdump fl os h c))
      put_kept none none = (refl, refl)
      put_kept none (some b) = (refl, refl)
      put_kept (some b) none = (refl, refl)
      put_kept (some b) (some b') = (refl, refl)

  finish_trace-Keeps :
      (found : Option (List ℕ × List ℕ)) (c : Conn fl)
      → Keeps fl os c (Finish.finish_trace fl os found c)
  finish_trace-Keeps none c = (refl, refl)
  finish_trace-Keeps (some (kind, text)) c =
      let (c1, path) = convert fl c text Kind.file (label_of c.v3 kind) in
      let c2 = Finish.trace_into fl os kind path (trace_file_name os path) c1 in
      let c3 = Finish.second_traces fl os kind c1.traces c2 in
      Keeps-trans fl os c c1 (Finish.trace_mods fl os kind c3)
        (convert-Keeps c text Kind.file (label_of c.v3 kind))
        (Keeps-trans fl os c1 c2 (Finish.trace_mods fl os kind c3)
          (trace_into-Keeps kind path (trace_file_name os path) c1)
          (Keeps-trans fl os c2 c3 (Finish.trace_mods fl os kind c3)
            (second_traces-Keeps kind c1.traces c2) (trace_mods-Keeps kind c3)))

  -- An end that leaves a connection enabled leaves its bind address, and nothing held it.
  pub finish_enabled :
      (c : Conn fl)
      → (finish fl os c).enabled ≡ true
      → (c.hold ≡ none) × ((finish fl os c).network.bind_ip ≡ c.network.bind_ip)
  unfolding finish
  finish_enabled c h =
      let c1 = finish_protocol fl os c in
      let c2 = Finish.finish_strings fl os string_keys c1 in
      let c3 = Finish.finish_trace fl os (first_kind (Finish.trace_kinds fl os) c2.traces) c2 in
      let k = Keeps-trans fl os c c1 c3 (finish_protocol-Keeps c) (
        Keeps-trans fl os c1 c2 c3 (finish_strings-Keeps string_keys c1)
          (finish_trace-Keeps (first_kind (Finish.trace_kinds fl os) c2.traces) c2)) in
      (sym k.0 ∙ (finish_access_enabled fl os c3 h).0, finish_access-bind_ip c3 ∙ k.1)
