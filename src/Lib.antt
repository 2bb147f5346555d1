-- ===== src/Lib.antt =====
-- ser2net: a bridge between serial ports and the network.
--
-- A mapping of the program ties one serial port to the network. Its runner is the transparent
-- bridge (app/engine/bridge.py), whose clients speak a protocol (app/engine/protocols), or the
-- Modbus gateway (app/engine/modbus_gateway.py), which puts the requests of Modbus/TCP masters on
-- a Modbus/RTU bus with the helpers of app/engine/modbus.py. A runner may publish to MQTT, lines
-- or Sparkplug B. The supervisor (app/engine/supervisor.py) owns the runners. The mappings and the
-- accounts stand in the configuration (app/config.py), which validates them; an administrator edits
-- it in the web interface (app/web) or imports it, also from the format of the C program ser2net
-- (app/importer.py, app/ser2net_import.py).
--
-- * Common holds what the parts share: Boolean tests on the native numbers (Tests), lists (Lists),
--   equality of byte strings (Equal), masks, shifts and xor (Bits), integers (Int), results of
--   code that raises (Result), strings (Texts) and decimal numbers (Decimal).
-- * Modbus is app/engine/modbus.py: Crc (`crc16`), Rtu (`rtu_wrap`, `rtu_unwrap`), Tcp
--   (`build_tcp_adu`, `take_tcp_adu`), Pdu (requests, replies, bits and writes) and Value
--   (`decode_value`, `encode_value`). Python's floats are the parameter `Floats`.
-- * Telnet is app/engine/protocols/telnet.py: `TelnetSession`, one function for each method.
-- * Gateway is app/engine/modbus_gateway.py: Requests is the read loop of `_on_client`, Transaction
--   is `_transaction` and `_read_rtu_response`, Points is `_read_point` and `write_point`, Masters
--   is the admission in `_on_client`. It calls Modbus. What the serial port does is an argument.
-- * Bridge is app/engine/bridge.py: Client is the output queue of `_ClientConn`, Closeon is
--   `_check_closeon`, Access is `_client_allowed`, Admission is `_pick_victim` and `_on_client`,
--   Trace is the queue, the writer thread and the rotation of `Tracer`, Udp is `_UdpBridge`.
-- * Supervisor is app/engine/supervisor.py: the dict of runners and the operations on it.
-- * Sparkplug is app/engine/sparkplug.py and app/engine/sparkplug_node.py: Wire is the protobuf
--   wire format (`_varint` to `_fields`), Ints the integers of metrics, Node `SparkplugNode` with
--   its births, data messages and sequence numbers.
-- * Mqtt is `feed` of app/engine/mqtt_pub.py.
-- * Config is app/config.py: Serial, Network, Options, Mqtt, Poll and Mapping are the dataclasses of
--   a mapping with their `validate`, Options has the old timers and the names of trace files too,
--   and App is what `AppConfig.validate` checks of all mappings together. Where `check_mappings` is
--   said to be `AppConfig.validate`, it is that part of it.
-- * Import is app/ser2net_import.py: Text is `_split_gensio`, Listen `_accepter` and what it calls,
--   Device `_connector` and what it calls, Settings `_option`, Strings `_convert`, Finish `_finish`,
--   Yaml `_substitute` and the connections of `_Yaml`, Document its other entries and `_from_yaml`,
--   Assemble `_assemble`; Apply is `apply_import` of app/importer.py. A file is the list of its parsed
--   documents. A connection becomes a mapping of Config. An exception of `int`, which the source does
--   not catch, ends an import.
-- * Web is app/web/auth.py and the accounts of app/config.py: Limiter is `LoginRateLimiter`, Session
--   the cookies and the access without login, Accounts `upsert_external_user`.
-- * Cluster is app/engine/cluster.py: the peers that a node hears and the addresses that the web
--   interface may have it reach.
-- * Notify is `emit` and `_worker` of `Notifier` in app/notify.py, which hears of the mappings'
--   states.
--
-- Parameters stand for what is outside the program: `Floats` for Python's floats, `World` for
-- `ipaddress`, the file system, services and the letters and digits of Unicode, `Library` for the
-- signature and encodings of session cookies, `Identity` for new ids and the comparison of mappings.
-- The `Library` of Cluster stands for JSON, the signature of beacons, `str.lower` and `int`.
--
-- The Tests module of each part applies the theorems to concrete data.
--
-- A byte string is a list of natural numbers; where a byte has to be below 256 a theorem says so.
-- A ValueError is a result `err`, with one constructor for each raise. Loops over data are
-- structural. On fuel are: `drain` and `drain_lines`, with as many rounds as the buffer has bytes,
-- since each frame and each line takes some of them; `fields` and `skip_group`, with as many as
-- there are bytes, since each round takes a key of at least one byte; `varint`, with the nine that
-- a value of 64 bits needs before its last byte; `decimal`, with more than its number; `free_name`,
-- with one more than there are used names, since each round meets another one of them.
--
-- Concurrency is written out as sequences of events: a client's queue takes the events of its
-- tasks in any order, a connection that waits for the serial port is decided before it joins, a
-- trace takes the steps of the event loop and of the writer thread in any order, and
-- `apply_mapping` is cut in two halves, between which another one may run if there is an old
-- runner to stop.
--
-- Not modelled: sockets, TLS, errors of the file system and the event loop, which are outside the
-- program; the tasks that reopen serial ports and connect out, the poll loop of the gateway and its
-- MQTT messages, the payload messages and the host commands of Sparkplug B, RFC 2217, the sending of
-- beacons and the requests to peers, what a notification says and how it is delivered, the settings
-- of the configuration that are no mapping's, the readers of the imported formats, and the pages of
-- the web interface.
pub mod Common
pub mod Modbus
pub mod Telnet
pub mod Gateway
pub mod Bridge
pub mod Supervisor
pub mod Sparkplug
pub mod Mqtt
pub mod Config
pub mod Import
pub mod Web
pub mod Notify
pub mod Cluster
