-- ===== src/Client/Handlers/ConnAck.antt =====
-- CONNACK: lib/client-lib/src/ConnAck.rs.
use rust_mqtt_sn.Prelude.{ℕ, List, ◌==◌, nat_eq, if◌then◌else◌}
use rust_mqtt_sn.Outcome.{wrong_length}
use rust_mqtt_sn.Exec.{Exec, raise, lift, ◌>>=◌}
use rust_mqtt_sn.Wire.Messages.ConnAck.{try_read, try_write}
use rust_mqtt_sn.Client.Consts.{msg_type_connack, msg_len_connack}
use rust_mqtt_sn.Client.{Client, transmit, cancel}

-- The return code is not looked at.
unfoldable pub rx : List ℕ → ℕ → ℕ → Exec Client (Unit {0})
rx buf size addr = do
  (conn_ack, read_len) ← lift (try_read buf size)
  if read_len == msg_len_connack then cancel addr conn_ack.msg_type 0 0 else raise wrong_length

unfoldable pub tx : ℕ → ℕ → Exec Client (Unit {0})
tx return_code addr = transmit addr (
    try_write
      (record { len = msg_len_connack; msg_type = msg_type_connack; return_code = return_code }))
