-- ===== src/Client/Handlers/PubAck.antt =====
-- PUBACK: lib/client-lib/src/PubAck.rs.
use rust_mqtt_sn.Prelude.{ℕ, List, [], ◌∷◌, ◌==◌, nat_eq, if◌then◌else◌}
use rust_mqtt_sn.Prelude.Bytes.{high, low}
use rust_mqtt_sn.Outcome.{wrong_length}
use rust_mqtt_sn.Exec.{Exec, pure, raise, lift, ◌>>=◌, ◌>>◌}
use rust_mqtt_sn.Wire.Messages.PubAck.{try_read}
use rust_mqtt_sn.Client.Consts.{msg_type_puback, msg_len_puback}
use rust_mqtt_sn.Client.{Client, transmit, cancel}

-- The topic id, the message id and the return code, which nobody looks at.
unfoldable pub rx : List ℕ → ℕ → ℕ → Exec Client (ℕ × ℕ × ℕ)
rx buf size addr = do
  (pub_ack, read_len) ← lift (try_read buf size)
  if read_len == msg_len_puback
      then (do
        cancel addr pub_ack.msg_type pub_ack.topic_id pub_ack.msg_id
        pure (pub_ack.topic_id, pub_ack.msg_id, pub_ack.return_code))
      else raise wrong_length

unfoldable pub tx : ℕ → ℕ → ℕ → ℕ → Exec Client (Unit {0})
tx topic_id msg_id return_code addr = transmit addr (
    msg_len_puback
    ∷ msg_type_puback
    ∷ high topic_id
    ∷ low topic_id
    ∷ high msg_id
    ∷ low msg_id
    ∷ return_code
    ∷ [])
