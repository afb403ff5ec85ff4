-- ===== src/Client/Handlers/RegAck.antt =====
-- REGACK: lib/client-lib/src/RegAck.rs.
use rust_mqtt_sn.Prelude.{ℕ, List, ◌==◌, nat_eq, if◌then◌else◌}
use rust_mqtt_sn.Outcome.{wrong_length}
use rust_mqtt_sn.Exec.{Exec, pure, raise, lift, ◌>>=◌, ◌>>◌}
use rust_mqtt_sn.Wire.Messages.RegAck.{try_read, try_write}
use rust_mqtt_sn.Client.Consts.{msg_type_regack, msg_len_regack}
use rust_mqtt_sn.Client.{Client, transmit, cancel}

unfoldable pub rx : List ℕ → ℕ → ℕ → Exec Client (ℕ × ℕ × ℕ)
rx buf size addr = do
  (reg_ack, read_len) ← lift (try_read buf size)
  if read_len == msg_len_regack
      then (do
        cancel addr reg_ack.msg_type reg_ack.topic_id reg_ack.msg_id
        pure (reg_ack.topic_id, reg_ack.msg_id, reg_ack.return_code))
      else raise wrong_length

unfoldable pub tx : ℕ → ℕ → ℕ → ℕ → Exec Client (Unit {0})
tx topic_id msg_id return_code addr = transmit addr (
    try_write (record {
      len = msg_len_regack;
      msg_type = msg_type_regack;
      topic_id = topic_id;
      msg_id = msg_id;
      return_code = return_code;
    }))
