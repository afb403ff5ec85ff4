-- ===== src/Client/Handlers/SubAck.antt =====
-- SUBACK: lib/client-lib/src/SubAck.rs.
use rust_mqtt_sn.Prelude.{ℕ, List, ◌==◌, nat_eq, if◌then◌else◌}
use rust_mqtt_sn.Outcome.{wrong_length}
use rust_mqtt_sn.Exec.{Exec, pure, raise, lift, ◌>>=◌, ◌>>◌}
use rust_mqtt_sn.Wire.Messages.SubAck.{try_read, try_write}
use rust_mqtt_sn.Client.Consts.{msg_type_suback, msg_len_suback}
use rust_mqtt_sn.Client.{Client, transmit, cancel}

unfoldable pub rx : List ℕ → ℕ → ℕ → Exec Client ℕ
rx buf size addr = do
  (sub_ack, read_len) ← lift (try_read buf size)
  if read_len == msg_len_suback
      then (do cancel addr sub_ack.msg_type 0 sub_ack.msg_id; pure sub_ack.topic_id)
      else raise wrong_length

unfoldable pub tx : ℕ → ℕ → ℕ → ℕ → ℕ → Exec Client (Unit {0})
tx flags topic_id msg_id return_code addr = transmit addr (
    try_write (record {
      len = msg_len_suback;
      msg_type = msg_type_suback;
      flags = flags;
      topic_id = topic_id;
      msg_id = msg_id;
      return_code = return_code;
    }))
