-- ===== src/Import/Listen.antt =====
-- app/ser2net_import.py: the listening side of a connection.
use ser2net.Common.{
  length, ℕ, ◌+◌, ◌-◌, ◌*◌, Bool, true, false, not, ◌&&◌, ◌||◌, Option, none, some, List, [], ◌∷◌,
  ◌++◌, ltb, leb, ◌==◌, is_nil, bytes_eq, if◌then◌else◌,
}
use ser2net.Common.Result.{Result, ok, err, ◌>>=◌}
use ser2net.Common.Int.{pos}
use ser2net.Common.Texts.{codes, strip, strip_of, is_any_of}
use ser2net.Config.{Floats, World, Ip, integer}
use ser2net.Config.Network.{is_refused}
use ser2net.Import.{
  ValueError, no_int, Conn, note, skip, no_port, bad_listen_port, first_address_only, ipv6_loopback,
  unusable_address, sctp_as_tcp, tls_lost, certauth_lost, layer_lost, not_an_accepter,
}
use ser2net.Import.Text.{lower, bool_of, split_gensio, nonempty, layer}

-- `family` is one of these words, or empty.
abbrev pub families : List (List ℕ)
families = codes "ipv4" ∷ codes "ipv6" ∷ codes "ipv6n4" ∷ []

abbrev pub strip_all : List (List ℕ) → List (List ℕ)
strip_all [] = []
strip_all (f ∷ fields) = strip f ∷ strip_all fields

-- The family words in front of the fields: the last of them, and the fields behind them.
abbrev pub take_family : List ℕ → List (List ℕ) → List ℕ × List (List ℕ)
take_family family [] = (family, [])
take_family family (f ∷ fields) =
    let later = take_family (lower f) fields in
    if is_any_of (lower f) families then later else (family, f ∷ fields)

-- A socket address in the fields: host and port, and what follows.
abbrev pub host_and_port : List (List ℕ) → Option (List ℕ × List ℕ × List (List ℕ))
host_and_port [] = none
host_and_port (port ∷ []) = some ([], port, [])
host_and_port (host ∷ port ∷ more) = some (host, port, more)

-- `sys.int_info.default_max_str_digits`
abbrev pub max_str_digits : ℕ
max_str_digits = 4300

abbrev pub is_some : Option ℕ → Bool
is_some none = false
is_some (some n) = true

module _ (fl : Floats) (os : World) where
  abbrev pub digit_of : ℕ → Option ℕ
  digit_of c =
      if ltb c 128
      then if leb b'0' c && leb c b'9' then some (c - 48) else none
      else os.decimal_digit c

  abbrev pub add_digit : Option ℕ → ℕ → Option ℕ
  add_digit none acc = none
  add_digit (some d) acc = some (acc * 10 + d)

  abbrev pub read_digits : Option ℕ → List ℕ → Option ℕ
  read_digits none cs = none
  read_digits (some acc) [] = some acc
  read_digits (some acc) (c ∷ cs) = read_digits (add_digit (digit_of c) acc) cs

  abbrev pub or_raise : Option ℕ → Result ValueError ℕ
  or_raise none = err no_int
  or_raise (some n) = ok n

  -- `int(text)`, of digits for `str.isdigit`. A digit such as ² is none for `int`, and Python refuses
  -- numbers that are too long.
  abbrev pub int_of : List ℕ → Result ValueError ℕ
  int_of text =
      if ltb max_str_digits (length text) then err no_int else or_raise (read_digits (some 0) text)

  abbrev pub is_digit : ℕ → Bool
  is_digit c = is_some (digit_of c) || leb 128 c && os.is_other_digit c

  abbrev pub all_digits : List ℕ → Bool
  all_digits [] = true
  all_digits (c ∷ cs) = is_digit c && all_digits cs

  -- `int(text) if text.isdigit() else None`
  unfoldable pub number : List ℕ → Result ValueError (Option ℕ)
  number text =
      if not (is_nil text) && all_digits text then (do n ← int_of text; ok (some n)) else ok none

  abbrev pub port_or_service : Option ℕ → List ℕ → Option ℕ
  port_or_service (some n) text = if leb 1 n && leb n 65535 then some n else none
  port_or_service none text = os.service text

  unfoldable pub port_number : List ℕ → Result ValueError (Option ℕ)
  unfolding strip number
  port_number text = do n ← number (strip text); ok (port_or_service n (strip text))

  -- The result of `_bind_ip`, and the connection with what it notes.
  abbrev pub bind_address : Option Ip → List ℕ → Conn fl → Conn fl × List ℕ
  bind_address none host c = (record c { hold = some (unusable_address host) }, codes "0.0.0.0")
  bind_address (some ip) host c =
      if ip.version == 6 && ip.is_loopback
      then (note fl (ipv6_loopback host) c, codes "127.0.0.1")
      else if not (is_refused ip)
      then (c, codes ip.text)
      else (record c { hold = some (unusable_address host) }, codes "0.0.0.0")

  abbrev pub is_bracket : ℕ → Bool
  is_bracket ch = ch == b'[' || ch == b']'

  unfoldable pub bind_ip : Conn fl → List ℕ → List ℕ → Conn fl × List ℕ
  bind_ip c host family =
      let h = strip_of is_bracket host in
      if is_nil h
      then (c, if bytes_eq family (codes "ipv6") then codes "::" else codes "0.0.0.0")
      else if bytes_eq (lower h) (codes "localhost")
      then (c, codes "127.0.0.1")
      else bind_address (os.ip_address h) host c

  abbrev pub bound : Conn fl × List ℕ → Conn fl
  bound (c, ip) = record c { network = record c.network { bind_ip = ip } }

  abbrev pub note_more : List ℕ → List ℕ → List (List ℕ) → Conn fl → Conn fl
  note_more host port [] c = c
  note_more host port (f ∷ more) c = note fl (first_address_only (host ++ (b',' ∷ port))) c

  abbrev pub listen_on : Option ℕ → List ℕ → List ℕ → List ℕ → Conn fl → Conn fl × Bool
  listen_on none host port family c = (skip fl (bad_listen_port port) c, false)
  listen_on (some n) host port family c =
      let c' = record c { network = record c.network { port = integer (pos n) } } in
      (bound (bind_ip c' host family), true)

  abbrev pub listen_fields :
      Option (List ℕ × List ℕ × List (List ℕ))
      → List ℕ
      → Conn fl
      → Result ValueError (Conn fl × Bool)
  listen_fields none family c = ok (skip fl no_port c, false)
  listen_fields (some (host, port, more)) family c = do
    n ← port_number port
    ok (listen_on n host port family (note_more host port more c))

  unfoldable pub listen_address : Conn fl → List (List ℕ) → Result ValueError (Conn fl × Bool)
  unfolding strip port_number bind_ip
  listen_address c fields =
      let (family, rest) = take_family [] (nonempty (strip_all fields)) in
      listen_fields (host_and_port rest) family c

  abbrev pub other_terminals : List (List ℕ)
  other_terminals =
      codes "unix"
      ∷ codes "unixdgram"
      ∷ codes "stdio"
      ∷ codes "pty"
      ∷ codes "file"
      ∷ codes "echo"
      ∷ codes "dummy"
      ∷ codes "conacc"
      ∷ codes "ipmisol"
      ∷ codes "serialdev"
      ∷ codes "sdev"
      ∷ codes "dev"
      ∷ codes "sound"
      ∷ codes "mdns"
      ∷ codes "net"
      ∷ codes "telnet"
      ∷ codes "ssl"
      ∷ codes "certauth"
      ∷ codes "mux"
      ∷ []

  abbrev pub net_terminals : List (List ℕ)
  net_terminals = codes "tcp" ∷ codes "udp" ∷ codes "sctp" ∷ []

  -- `o.split("=", 1)`: what stands before the first `=`, and what stands behind it.
  abbrev pub key_and_value : List ℕ → List ℕ × Option (List ℕ)
  key_and_value [] = ([], none)
  key_and_value (c ∷ cs) =
      let (key, value) = key_and_value cs in if c == b'=' then ([], some cs) else (c ∷ key, value)

  abbrev pub is_true : Option Bool → Bool
  is_true none = false
  is_true (some b) = b

  abbrev pub value_or_true : Option (List ℕ) → List ℕ
  value_or_true none = codes "true"
  value_or_true (some v) = v

  abbrev pub asks_rfc2217 : List (List ℕ) → Bool
  asks_rfc2217 [] = false
  asks_rfc2217 (o ∷ opts) =
      let (key, value) = key_and_value o in
      (bytes_eq (lower (strip key)) (codes "rfc2217") && is_true (bool_of (value_or_true value)))
      || asks_rfc2217 opts

  -- What one layer does: it is the network layer, it is passed, or it ends the search.
  pub data LayerStep : Type 0 where
    listens_here : Conn fl → LayerStep
    passed : Conn fl → LayerStep
    stopped : LayerStep

  abbrev pub with_mode : List ℕ → Conn fl → Conn fl
  with_mode low c =
      if bytes_eq low (codes "udp")
      then record c { network = record c.network { mode = "udp" } }
      else if bytes_eq low (codes "sctp")
      then note fl sctp_as_tcp c
      else c

  abbrev pub with_telnet : List (List ℕ) → Conn fl → Conn fl
  with_telnet opts c = record c {
    network = record c.network { protocol = if asks_rfc2217 opts then "rfc2217" else "telnet" };
  }

  unfoldable pub layer_step : Conn fl → List ℕ → LayerStep
  unfolding layer strip bool_of
  layer_step c part =
      let (name, opts) = layer part in
      let low = lower name in
      if is_any_of low net_terminals
      then listens_here (with_mode low c)
      else if bytes_eq low (codes "telnet")
      then passed (with_telnet opts c)
      else if bytes_eq low (codes "ssl")
      then passed (note fl tls_lost c)
      else if bytes_eq low (codes "certauth")
      then passed (note fl certauth_lost c)
      else if bytes_eq low (codes "mux")
      then passed c
      else if is_any_of low other_terminals
      then stopped
      else passed (note fl (layer_lost name) c)

  -- The connection before the layer, the layers behind it, and what comes of these.
  abbrev pub after_layer :
      List ℕ
      → Conn fl
      → List (List ℕ)
      → (Conn fl → Result ValueError (Conn fl × Bool))
      → LayerStep
      → Result ValueError (Conn fl × Bool)
  after_layer spec c layers next (listens_here c') = listen_address c' layers
  after_layer spec c layers next (passed c') = next c'
  after_layer spec c layers next stopped = ok (skip fl (not_an_accepter spec) c, false)

  unfoldable pub accepter_layers :
      List ℕ → Conn fl → List (List ℕ) → Result ValueError (Conn fl × Bool)
  unfolding layer_step listen_address
  accepter_layers spec c [] = ok (skip fl (not_an_accepter spec) c, false)
  accepter_layers spec c (part ∷ layers) =
      after_layer spec c layers (λ c'. accepter_layers spec c' layers) (layer_step c part)

  unfoldable pub accepter : Conn fl → List ℕ → Result ValueError (Conn fl × Bool)
  unfolding accepter_layers split_gensio
  accepter c spec = accepter_layers spec c (split_gensio spec)
