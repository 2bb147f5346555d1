-- ===== src/Import/Settings.antt =====
-- app/ser2net_import.py: the options of a connection, and what of `_finish` decides who may
-- connect. The conversion of banners, strings and trace files there is not modelled.
use ser2net.Common.{
  ℕ, Bool, true, false, not, ◌&&◌, ◌||◌, Option, none, some, List, [], ◌∷◌, ◌++◌, ltb, leb, ◌==◌,
  is_nil, min, bytes_eq, drop, if◌then◌else◌,
}
use ser2net.Common.Result.{Result, ok, ◌>>=◌}
use ser2net.Common.Int.{pos}
use ser2net.Common.Texts.{codes, same, strip, is_any_of, is_space}
use ser2net.Config.{Floats, World, integer, at_least_int}
use ser2net.Config.Options.{max_timer_s}
use ser2net.Import.{
  ValueError, Conn, Note, note, drop_option, not_a_flag, bad_max_connections, timeout_capped,
  bad_timeout, one_flow_control, no_protocol_over_udp, rfc2217_single, remaddr_lost,
  dropped_options, connect_back, not_an_address, port_not_checked,
}
use ser2net.Import.Text.{lower, bool_of, nonempty}
use ser2net.Import.Listen.{number, strip_all, families, net_terminals, is_true}

-- `d[k] = v` on the items of a dict, in their order.
abbrev pub put_text : List ℕ → List ℕ → List (List ℕ × List ℕ) → List (List ℕ × List ℕ)
put_text k v [] = (k, v) ∷ []
put_text k v ((j, w) ∷ items) =
    let rest = put_text k v items in if bytes_eq j k then (j, v) ∷ items else (j, w) ∷ rest

abbrev pub put_mod :
    List ℕ × List ℕ → Bool → List ((List ℕ × List ℕ) × Bool) → List ((List ℕ × List ℕ) × Bool)
put_mod (k, l) v [] = ((k, l), v) ∷ []
put_mod (k, l) v (((i, j), w) ∷ items) =
    let rest = put_mod (k, l) v items in
    if bytes_eq i k && bytes_eq j l then ((i, j), v) ∷ items else ((i, j), w) ∷ rest

abbrev pub string_keys : List (List ℕ)
string_keys = codes "banner" ∷ codes "openstr" ∷ codes "closestr" ∷ codes "closeon" ∷ []

-- What `_TRACE_MOD` matches in full, with its two groups.
abbrev pub trace_mod_keys : List (List ℕ × List ℕ × List ℕ)
trace_mod_keys =
    (codes "trace-hexdump", codes "all", codes "hexdump")
    ∷ (codes "trace-timestamp", codes "all", codes "timestamp")
    ∷ (codes "trace-both-hexdump", codes "both", codes "hexdump")
    ∷ (codes "trace-both-timestamp", codes "both", codes "timestamp")
    ∷ (codes "trace-read-hexdump", codes "read", codes "hexdump")
    ∷ (codes "trace-read-timestamp", codes "read", codes "timestamp")
    ∷ (codes "trace-write-hexdump", codes "write", codes "hexdump")
    ∷ (codes "trace-write-timestamp", codes "write", codes "timestamp")
    ∷ []

abbrev pub trace_mod : List ℕ → List (List ℕ × List ℕ × List ℕ) → Option (List ℕ × List ℕ)
trace_mod k [] = none
trace_mod k ((key, kind, what) ∷ keys) =
    if bytes_eq k key then some (kind, what) else trace_mod k keys

module _ (fl : Floats) (os : World) where
  abbrev pub set_idle : Option ℕ → List ℕ → Conn fl → Conn fl
  set_idle none [] c = c
  set_idle none (x ∷ v) c = note fl (bad_timeout (x ∷ v)) c
  set_idle (some n) v c =
      let c' = record c {
        options = record c.options { idle_timeout_s = integer (pos (min n max_timer_s)) };
      } in
      if ltb max_timer_s n then note fl (timeout_capped v) c' else c'

  -- `_idle_timeout`
  unfoldable pub idle_timeout : Conn fl → List ℕ → Result ValueError (Conn fl)
  unfolding strip
  idle_timeout c value = do n ← number fl os (strip value); ok (set_idle n (strip value) c)

  abbrev pub set_max_connections : Option ℕ → List ℕ → Conn fl → Conn fl
  set_max_connections none value c = note fl (bad_max_connections value) c
  set_max_connections (some n) value c =
      if leb 1 n
      then record c { network = record c.network { max_connections = integer (pos n) } }
      else note fl (bad_max_connections value) c

  abbrev pub set_kick : Option Bool → List ℕ → List ℕ → Conn fl → Conn fl
  set_kick none key value c = note fl (not_a_flag key value) c
  set_kick (some b) key value c = record c { network = record c.network { kick_old_user = b } }

  abbrev pub set_read_only : Option Bool → List ℕ → List ℕ → Conn fl → Conn fl
  set_read_only none key value c = note fl (not_a_flag key value) c
  set_read_only (some b) key value c =
      if b then record c { network = record c.network { read_only = true } } else c

  -- `re.split(r"[;\s]+", text)`, without the empty entries that the loop passes over.
  abbrev pub entries_of : List ℕ → List ℕ → List (List ℕ)
  entries_of part [] = nonempty (part ∷ [])
  entries_of part (x ∷ xs) =
      let done = entries_of [] xs in
      let more = entries_of (part ++ (x ∷ [])) xs in
      if x == b';' || is_space x then nonempty (part ∷ []) ++ done else more

  abbrev pub split_commas : List ℕ → List ℕ → List (List ℕ)
  split_commas part [] = part ∷ []
  split_commas part (x ∷ xs) =
      let done = split_commas [] xs in
      let more = split_commas (part ++ (x ∷ [])) xs in if x == b',' then part ∷ done else more

  -- The words in front of the address are passed over.
  abbrev pub address_fields : List (List ℕ) → List (List ℕ)
  address_fields [] = []
  address_fields (f ∷ fields) =
      let rest = address_fields fields in
      if is_any_of (lower f) families || is_any_of (lower f) (net_terminals fl os)
      then rest
      else f ∷ fields

  abbrev pub add_client : List ℕ → Conn fl → Conn fl
  add_client host c = if is_any_of host c.network.allowed_client_ips then c else record c {
    network = record c.network { allowed_client_ips = c.network.allowed_client_ips ++ (host ∷ []) };
  }

  abbrev pub note_port : List (List ℕ) → List ℕ → Conn fl → Conn fl
  note_port [] entry c = c
  note_port (port ∷ more) entry c =
      if bytes_eq port (codes "0") then c else note fl (port_not_checked entry) c

  abbrev pub allow_fields : List (List ℕ) → List ℕ → Conn fl → Conn fl
  allow_fields [] entry c =
      if os.is_network [] then add_client [] c else note fl (not_an_address entry) c
  allow_fields (host ∷ more) entry c =
      if os.is_network host
      then add_client host (note_port more entry c)
      else note fl (not_an_address entry) c

  abbrev pub allow_entry : List ℕ → Conn fl → Conn fl
  allow_entry [] c = c
  allow_entry (x ∷ entry) c =
      if x == b'!'
      then note fl (connect_back (x ∷ entry)) c
      else allow_fields (address_fields (nonempty (strip_all (split_commas [] (x ∷ entry)))))
          (x ∷ entry) c

  abbrev pub allow_all : List (List ℕ) → Conn fl → Conn fl
  allow_all [] c = c
  allow_all (e ∷ entries) c = allow_all entries (allow_entry e c)

  unfoldable pub remaddr : Conn fl → List ℕ → Conn fl
  unfolding strip
  remaddr c value = allow_all (entries_of [] (strip value)) (record c { access_given = true })

  abbrev pub drop_on_sync : List ℕ → List ℕ → Conn fl → Conn fl
  drop_on_sync key value c =
      if is_true fl os (bool_of value) && not (same c.network.protocol "raw")
      then drop_option fl key c
      else c

  abbrev pub set_trace_mod : Option Bool → List ℕ → List ℕ → List ℕ × List ℕ → Conn fl → Conn fl
  set_trace_mod none key value modifier c = note fl (not_a_flag key value) c
  set_trace_mod (some b) key value (kind, what) c = record c {
    trace_mods = put_mod (kind, what) b c.trace_mods;
  }

  abbrev pub set_trace : List ℕ → List ℕ → Conn fl → Conn fl
  set_trace kind [] c = c
  set_trace kind (x ∷ v) c = record c { traces = put_text kind (x ∷ v) c.traces }

  -- The keys that are left: the modifiers of traces, and those that have no equivalent.
  abbrev pub other_option : Option (List ℕ × List ℕ) → List ℕ → List ℕ → Conn fl → Conn fl
  other_option (some modifier) key value c = set_trace_mod (bool_of value) key value modifier c
  other_option none key value c = drop_option fl key c

  -- The branches of `_option` from that of `telnet-brk-on-sync` on; those of strings and traces, which
  -- the source has before it, are of other keys.
  abbrev pub late_option : List ℕ → Conn fl → List ℕ → List ℕ → Conn fl
  late_option k c key value =
      if bytes_eq k (codes "telnet-brk-on-sync")
      then drop_on_sync key value c
      else if bytes_eq k (codes "chardelay")
      then c
      else if is_any_of k string_keys
      then record c { strings = put_text k value c.strings }
      else if is_any_of k (codes "trace-both" ∷ codes "trace-read" ∷ codes "trace-write" ∷ [])
      then set_trace (drop 6 k) (strip value) c
      else other_option (trace_mod k trace_mod_keys) key value c

  -- The branches that cannot raise.
  unfoldable pub plain_option : List ℕ → Conn fl → List ℕ → List ℕ → Conn fl
  unfolding strip bool_of remaddr
  plain_option k c key value =
      if bytes_eq k (codes "kickolduser")
      then set_kick (bool_of value) key value c
      else if bytes_eq k (codes "remaddr")
      then remaddr c value
      else if bytes_eq k (codes "no-acc-to-con")
      then set_read_only (bool_of value) key value c
      else late_option k c key value

  abbrev pub read_max_connections : Conn fl → List ℕ → Result ValueError (Conn fl)
  read_max_connections c value = do
    n ← number fl os (strip value)
    ok (set_max_connections n value c)

  -- `_option`
  unfoldable pub option : Conn fl → List ℕ → List ℕ → Result ValueError (Conn fl)
  unfolding strip idle_timeout plain_option
  option c key value =
      let k = lower (strip key) in
      if is_any_of k (codes "timeout" ∷ codes "connection timeout" ∷ [])
      then idle_timeout c value
      else if bytes_eq k (codes "max-connections")
      then read_max_connections c value
      else ok (plain_option k c key value)

  -- `_finish`: what flow control, UDP and RFC 2217 leave.
  abbrev pub finish_flow : Conn fl → Conn fl
  finish_flow c =
      let c' = if c.rtscts && c.xonxoff then note fl one_flow_control c else c in
      record c' {
        serial = record c.serial {
          flowcontrol = if c.rtscts then "rtscts" else if c.xonxoff then "xonxoff" else "none";
        };
      }

  abbrev pub finish_udp : Conn fl → Conn fl
  finish_udp c =
      if same c.network.mode "udp" && not (same c.network.protocol "raw")
      then record (note fl (no_protocol_over_udp c.network.protocol) c) {
        network = record c.network { protocol = "raw" };
      }
      else c

  abbrev pub finish_rfc2217 : Conn fl → Conn fl
  finish_rfc2217 c =
      if same c.network.protocol "rfc2217" && at_least_int fl 2 c.network.max_connections
      then record (note fl rfc2217_single c) {
        network = record c.network { max_connections = integer (pos 1) };
      }
      else c

  abbrev pub finish_protocol : Conn fl → Conn fl
  finish_protocol c = finish_rfc2217 (finish_udp (finish_flow c))

  -- `_finish`: who may connect.
  abbrev pub hold_access : Conn fl → Conn fl
  hold_access c =
      if c.access_given && is_nil c.network.allowed_client_ips
      then record c { hold = some remaddr_lost }
      else c

  abbrev pub held : Option Note → Conn fl → Conn fl
  held none c = c
  held (some why) c = note fl why (record c { enabled = false })

  abbrev pub note_dropped : List (List ℕ) → Conn fl → Conn fl
  note_dropped [] c = c
  note_dropped (o ∷ dropped) c = note fl (dropped_options (o ∷ dropped)) c

  unfoldable pub finish_access : Conn fl → Conn fl
  finish_access c = let c1 = hold_access c in let c2 = held c1.hold c1 in note_dropped c2.dropped c2
