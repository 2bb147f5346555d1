-- ===== src/Config/Mqtt.antt =====
-- app/config.py, `MqttSettings`.
use ser2net.Common.{ℕ, Bool, false, not, ◌&&◌, ◌||◌, List, [], ◌∷◌, ◌==◌, if◌then◌else◌}
use ser2net.Common.Result.{Result, ok, ◌>>◌, raise_if}
use ser2net.Common.Int.{pos}
use ser2net.Common.Texts.{same, is_one_of, is_blank, codes}
use Prim.Native.String.{String}
use ser2net.Config.{
  ConfigError, no_broker, no_topic, bad_mqtt_port, bad_qos, bad_format, bad_group, bad_node,
  no_group, Floats, Scalar, integer, is_instance_int, within, is_equal,
}

abbrev pub mqtt_formats : List String
mqtt_formats = "plain" ∷ "sparkplug_b" ∷ []

-- `any(c in value for c in "/+#")`
abbrev pub has_topic_char : List ℕ → Bool
has_topic_char [] = false
has_topic_char (c ∷ cs) = (c == b'/' || c == b'+' || c == b'#') || has_topic_char cs

module _ (fl : Floats) where
  pub record MqttSettings : Type 0 where
    pub enabled : Bool
    pub host : String
    pub port : Scalar fl
    pub base_topic : String
    pub qos : Scalar fl
    pub tls : Bool
    pub username : String
    pub password : String
    pub client_id : String
    pub payload_format : String
    pub sparkplug_group_id : String
    pub sparkplug_node_id : String

  abbrev pub default_mqtt : MqttSettings
  default_mqtt = record {
    enabled = false;
    host = "";
    port = integer (pos 1883);
    base_topic = "";
    qos = integer (pos 0);
    tls = false;
    username = "";
    password = "";
    client_id = "";
    payload_format = "plain";
    sparkplug_group_id = "ser2net";
    sparkplug_node_id = "";
  }

  abbrev pub check_sparkplug : MqttSettings → Result ConfigError (Unit {0})
  check_sparkplug m = do
    raise_if (has_topic_char (codes m.sparkplug_group_id)) bad_group
    raise_if (has_topic_char (codes m.sparkplug_node_id)) bad_node
    raise_if (is_blank m.sparkplug_group_id) no_group

  abbrev pub check_enabled : MqttSettings → Result ConfigError (Unit {0})
  check_enabled m = do
    raise_if (is_blank m.host) no_broker
    raise_if (is_blank m.base_topic) no_topic
    raise_if (not (is_instance_int fl m.port && within fl 1 65535 m.port)) bad_mqtt_port
    raise_if (not (is_equal fl 0 m.qos || is_equal fl 1 m.qos || is_equal fl 2 m.qos)) bad_qos
    raise_if (not (is_one_of m.payload_format mqtt_formats)) bad_format
    if same m.payload_format "sparkplug_b" then check_sparkplug m else ok tt

  unfoldable pub validate : MqttSettings → Result ConfigError (Unit {0})
  unfolding is_blank
  validate m = if not m.enabled then ok tt else check_enabled m
