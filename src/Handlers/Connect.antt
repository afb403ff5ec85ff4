-- ===== src/Handlers/Connect.antt =====
-- CONNECT: lib/broker-lib/src/connect.rs.
use rust_mqtt_sn.Prelude.{ℕ, ◌+◌, ◌-◌, List, length, ltb, if◌then◌else◌}
use rust_mqtt_sn.Prelude.Bytes.{u8, u16}
use rust_mqtt_sn.Outcome.{Outcome, ok, err, too_long}
use rust_mqtt_sn.Exec.{Exec, lift, ◌>>=◌, ◌>>◌}
use rust_mqtt_sn.Bisetmap.{BisetMaps}
use rust_mqtt_sn.Wire.Consts.{
  msg_type_connect, msg_type_connack, msg_len_connect_header, return_code_accepted,
}
use rust_mqtt_sn.Wire.Reader.{read_from}
use rust_mqtt_sn.Wire.Header.{MsgHeader, MsgHeaderLen, short, long}
use rust_mqtt_sn.Broker.{Broker, try_send, schedule_timer, on_keep_alive}
use rust_mqtt_sn.Wire.Flags.{flag_is_will}
use rust_mqtt_sn.KeepAlive
use rust_mqtt_sn.Wire.Messages.Connect
use rust_mqtt_sn.Wire.Messages.Connect4
use rust_mqtt_sn.Broker.Clients.{try_insert}
use rust_mqtt_sn.Handlers.ConnAck
use rust_mqtt_sn.Handlers.WillTopicReq

unfoldable pub read_message : MsgHeaderLen → List ℕ → ℕ → Outcome (Connect.Connect × ℕ)
read_message short buf size = Connect.try_read buf size
read_message long buf size = read_from 2 Connect.try_read buf (size - 2)

-- The message that is sent: the long form has flags and a protocol id of its own.
unfoldable pub message : ℕ → ℕ → ℕ → List ℕ → Outcome (List ℕ)
message flags protocol_id duration client_id =
    let len = length client_id + msg_len_connect_header in
    if ltb len 256
    then ok (
        Connect.try_write (record {
          len = u8 len;
          msg_type = msg_type_connect;
          flags = flags;
          protocol_id = protocol_id;
          duration = duration;
          client_id = client_id;
        }))
    else (if ltb len 1400
        then ok (
            Connect4.try_write (record {
              one = 1;
              len = u16 len;
              msg_type = msg_type_connect;
              flags = 4;
              protocol_id = 1;
              duration = duration;
              client_id = client_id;
            }))
        else err too_long)

module _ ⦃B : BisetMaps⦄ where
  unfoldable pub send : ℕ → ℕ → ℕ → List ℕ → MsgHeader → Exec Broker (Unit {0})
  unfolding message
  send flags protocol_id duration client_id header = do
    bytes ← lift (message flags protocol_id duration client_id)
    try_send header.remote_socket_addr bytes
    schedule_timer header.remote_socket_addr msg_type_connack 0 0 1 bytes

  unfoldable pub recv : List ℕ → ℕ → MsgHeader → Exec Broker (Unit {0})
  unfolding read_message
  recv buf size header = do
    (m, _) ← lift (read_message header.header_len buf size)
    try_insert header.remote_socket_addr m.flags m.protocol_id m.duration m.client_id
    on_keep_alive (KeepAlive.schedule header.remote_socket_addr m.duration)
    if flag_is_will m.flags
        then WillTopicReq.send header
        else ConnAck.send header return_code_accepted
