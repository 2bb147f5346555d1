-- ===== src/Config/Network.antt =====
-- app/config.py, `NetworkSettings`.
pub mod Sound
use ser2net.Common.{
  ℕ, Bool, bytes_eq, true, false, not, ◌&&◌, ◌||◌, Option, none, some, List, [], ◌∷◌, if◌then◌else◌,
}
use ser2net.Common.Result.{Result, ok, err, ◌>>=◌, ◌>>◌, raise_if}
use ser2net.Common.Int.{pos}
use ser2net.Common.Texts.{same, is_one_of, is_empty, is_blank, strip, codes}
use Prim.Native.String.{String}
use ser2net.Config.{
  ConfigError, bad_mode, bad_protocol, bad_bind_ip, reserved_bind_ip, bad_port, remote_required,
  bad_remote_port, bad_max_connections, bad_queue, bad_idle, bad_interval, bad_count,
  bad_connect_timeout, rfc2217_udp, modbus_mode, rfc2217_single, tls_udp, tls_incomplete,
  tls_missing, bad_allowed, bad_priority, Floats, Ip, World, Scalar, integer, real, is_instance_int,
  is_int, is_number, within, at_least_int,
}

abbrev pub net_modes : List String
net_modes = "server" ∷ "client" ∷ "udp" ∷ []

abbrev pub protocols : List String
protocols = "raw" ∷ "telnet" ∷ "rfc2217" ∷ "modbus" ∷ []

unfoldable pub normalize_cidr : List ℕ → List ℕ
unfolding strip
normalize_cidr value =
    let v = strip value in
    if bytes_eq v (codes "0.0.0.0")
    then codes "0.0.0.0/0"
    else if bytes_eq v (codes "::")
    then codes "::/0"
    else v

-- `ip.is_multicast or (ip.is_reserved and str(ip) not in ("0.0.0.0", "::"))`
abbrev pub is_refused : Ip → Bool
is_refused ip =
    ip.is_multicast || (ip.is_reserved && not (is_one_of ip.text ("0.0.0.0" ∷ "::" ∷ [])))

module _ (fl : Floats) where
  open fl use {of_nat}

  pub record NetworkSettings : Type 0 where
    pub mode : String
    pub protocol : String
    pub bind_ip : List ℕ
    pub port : Scalar fl
    pub remote_host : String
    pub remote_port : Scalar fl
    pub max_connections : Scalar fl
    pub kick_old_user : Bool
    pub allowed_client_ips : List (List ℕ)
    pub priority_client_ips : List (List ℕ)
    pub read_only : Bool
    pub client_queue_max : Scalar fl
    pub tcp_keepalive : Bool
    pub keepalive_idle_s : Scalar fl
    pub keepalive_interval_s : Scalar fl
    pub keepalive_count : Scalar fl
    pub connect_timeout_s : Scalar fl
    pub tls : Bool
    pub tls_cert : String
    pub tls_key : String

  abbrev pub default_network : NetworkSettings
  default_network = record {
    mode = "server";
    protocol = "raw";
    bind_ip = codes "0.0.0.0";
    port = integer (pos 4001);
    remote_host = "";
    remote_port = integer (pos 0);
    max_connections = integer (pos 1);
    kick_old_user = false;
    allowed_client_ips = [];
    priority_client_ips = [];
    read_only = false;
    client_queue_max = integer (pos 2048);
    tcp_keepalive = true;
    keepalive_idle_s = integer (pos 60);
    keepalive_interval_s = integer (pos 10);
    keepalive_count = integer (pos 3);
    connect_timeout_s = real (of_nat 10);
    tls = false;
    tls_cert = "";
    tls_key = "";
  }

  abbrev pub listens : NetworkSettings → Bool
  listens n = is_one_of n.mode ("server" ∷ "udp" ∷ [])

module _ (fl : Floats) (os : World) where
  abbrev pub check_bind_ip : Option Ip → Result ConfigError (Unit {0})
  check_bind_ip none = err bad_bind_ip
  check_bind_ip (some ip) = raise_if (is_refused ip) reserved_bind_ip

  abbrev pub is_port : Scalar fl → Bool
  is_port v = is_instance_int fl v && within fl 1 65535 v

  -- The two sides of `if self.listens`.
  abbrev pub check_listener : NetworkSettings fl → Result ConfigError (Unit {0})
  check_listener n = do
    check_bind_ip (os.ip_address n.bind_ip)
    raise_if (not (is_port n.port)) bad_port

  abbrev pub check_target : NetworkSettings fl → Result ConfigError (Unit {0})
  check_target n = do
    raise_if (is_blank n.remote_host) remote_required
    raise_if (not (is_port n.remote_port)) bad_remote_port

  abbrev pub is_keepalive : ℕ → Scalar fl → Bool
  is_keepalive high v = is_int fl v && within fl 1 high v

  abbrev pub check_tls : NetworkSettings fl → Result ConfigError (Unit {0})
  check_tls n = do
    raise_if (same n.mode "udp") tls_udp
    raise_if (is_empty n.tls_cert || is_empty n.tls_key) tls_incomplete
    raise_if (not (os.is_file n.tls_cert && os.is_file n.tls_key)) tls_missing

  abbrev pub check_networks : List (List ℕ) → ConfigError → Result ConfigError (Unit {0})
  check_networks [] e = ok tt
  check_networks (cidr ∷ rest) e = do
    raise_if (not (os.is_network (normalize_cidr cidr))) e
    check_networks rest e

  abbrev pub check_endpoint : NetworkSettings fl → Result ConfigError (Unit {0})
  check_endpoint n = do
    raise_if (not (is_one_of n.mode net_modes)) bad_mode
    raise_if (not (is_one_of n.protocol protocols)) bad_protocol
    if listens fl n then check_listener n else check_target n

  abbrev pub check_limits : NetworkSettings fl → Result ConfigError (Unit {0})
  check_limits n = do
    raise_if (not (is_instance_int fl n.max_connections && at_least_int fl 1 n.max_connections))
        bad_max_connections
    raise_if (not (is_instance_int fl n.client_queue_max && at_least_int fl 16 n.client_queue_max))
        bad_queue
    raise_if (not (is_keepalive 32767 n.keepalive_idle_s)) bad_idle
    raise_if (not (is_keepalive 32767 n.keepalive_interval_s)) bad_interval
    raise_if (not (is_keepalive 127 n.keepalive_count)) bad_count
    raise_if (not (is_number fl n.connect_timeout_s && within fl 0 3600 n.connect_timeout_s))
        bad_connect_timeout

  abbrev pub check_protocol : NetworkSettings fl → Result ConfigError (Unit {0})
  check_protocol n = do
    raise_if (same n.protocol "rfc2217" && same n.mode "udp") rfc2217_udp
    raise_if (same n.protocol "modbus" && not (same n.mode "server")) modbus_mode
    raise_if (same n.protocol "rfc2217" && at_least_int fl 2 n.max_connections) rfc2217_single

  abbrev pub check_clients : NetworkSettings fl → Result ConfigError (Unit {0})
  check_clients n = do
    check_networks n.allowed_client_ips bad_allowed
    check_networks n.priority_client_ips bad_priority

  unfoldable pub validate : NetworkSettings fl → Result ConfigError (Unit {0})
  unfolding normalize_cidr is_blank
  validate n = do
    check_endpoint n
    check_limits n
    check_protocol n
    (if n.tls then check_tls n else ok tt)
    check_clients n
