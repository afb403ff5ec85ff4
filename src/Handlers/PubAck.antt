-- ===== src/Handlers/PubAck.antt =====
-- PUBACK: lib/broker-lib/src/pub_ack.rs.
use rust_mqtt_sn.Prelude.{ℕ, List, [], ◌∷◌, ◌==◌, nat_eq, if◌then◌else◌}
use rust_mqtt_sn.Prelude.Bytes.{high, low}
use rust_mqtt_sn.Outcome.{wrong_length}
use rust_mqtt_sn.Exec.{Exec, raise, lift, ◌>>=◌}
use rust_mqtt_sn.Bisetmap.{BisetMaps}
use rust_mqtt_sn.Wire.Consts.{msg_type_puback, msg_len_puback}
use rust_mqtt_sn.Wire.Header.{MsgHeader}
use rust_mqtt_sn.Broker.{Broker, try_send, cancel_timer}
use rust_mqtt_sn.Wire.Messages.PubAck.{try_read}

module _ ⦃B : BisetMaps⦄ where
  unfoldable pub send : ℕ → ℕ → ℕ → MsgHeader → Exec Broker (Unit {0})
  send topic_id msg_id return_code header = try_send header.remote_socket_addr (
      msg_len_puback
      ∷ msg_type_puback
      ∷ high topic_id
      ∷ low topic_id
      ∷ high msg_id
      ∷ low msg_id
      ∷ return_code
      ∷ [])

  unfoldable pub recv : List ℕ → ℕ → MsgHeader → Exec Broker (Unit {0})
  recv buf size header = do
    (pub_ack, read_len) ← lift (try_read buf size)
    if read_len == msg_len_puback
        then cancel_timer header.remote_socket_addr pub_ack.msg_type pub_ack.topic_id pub_ack.msg_id
        else raise wrong_length
