-- ===== src/Handlers/ConnAck.antt =====
-- CONNACK: lib/broker-lib/src/conn_ack.rs.
use rust_mqtt_sn.Prelude.{ℕ, List, ◌==◌, nat_eq, if◌then◌else◌}
use rust_mqtt_sn.Outcome.{wrong_length}
use rust_mqtt_sn.Exec.{Exec, raise, lift, ◌>>=◌}
use rust_mqtt_sn.Bisetmap.{BisetMaps}
use rust_mqtt_sn.Wire.Consts.{msg_type_connack, msg_len_connack}
use rust_mqtt_sn.Wire.Header.{MsgHeader}
use rust_mqtt_sn.Broker.{Broker, try_send, cancel_timer}
use rust_mqtt_sn.Wire.Messages.ConnAck.{try_read, try_write}

module _ ⦃B : BisetMaps⦄ where
  unfoldable pub recv : List ℕ → ℕ → MsgHeader → Exec Broker (Unit {0})
  recv buf size header = do
    (conn_ack, read_len) ← lift (try_read buf size)
    if read_len == msg_len_connack
        then cancel_timer header.remote_socket_addr conn_ack.msg_type 0 0
        else raise wrong_length

  unfoldable pub send : MsgHeader → ℕ → Exec Broker (Unit {0})
  send header return_code = try_send header.remote_socket_addr (
      try_write
        (record { len = msg_len_connack; msg_type = msg_type_connack; return_code = return_code }))
