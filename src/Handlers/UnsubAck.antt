-- ===== src/Handlers/UnsubAck.antt =====
-- UNSUBACK: lib/broker-lib/src/unsub_ack.rs.
use rust_mqtt_sn.Prelude.{ℕ, List, ◌==◌, nat_eq, if◌then◌else◌}
use rust_mqtt_sn.Outcome.{wrong_length}
use rust_mqtt_sn.Exec.{Exec, raise, lift, ◌>>=◌}
use rust_mqtt_sn.Bisetmap.{BisetMaps}
use rust_mqtt_sn.Wire.Consts.{msg_type_unsuback, msg_len_unsuback}
use rust_mqtt_sn.Wire.Header.{MsgHeader}
use rust_mqtt_sn.Broker.{Broker, try_send, cancel_timer}
use rust_mqtt_sn.Wire.Messages.UnsubAck.{try_read, try_write}

module _ ⦃B : BisetMaps⦄ where
  unfoldable pub recv : List ℕ → ℕ → MsgHeader → Exec Broker (Unit {0})
  recv buf size header = do
    (unsub_ack, read_len) ← lift (try_read buf size)
    if read_len == msg_len_unsuback
        then cancel_timer header.remote_socket_addr unsub_ack.msg_type 0 unsub_ack.msg_id
        else raise wrong_length

  unfoldable pub send : MsgHeader → ℕ → Exec Broker (Unit {0})
  send header msg_id =
      try_send header.remote_socket_addr (
        try_write
          (record { len = msg_len_unsuback; msg_type = msg_type_unsuback; msg_id = msg_id }))
