-- ===== src/Client/Handlers/WillMsgReq.antt =====
-- WILLMSGREQ: lib/client-lib/src/WillMsgReq.rs.
use rust_mqtt_sn.Prelude.{ℕ, List, ◌==◌, nat_eq, if◌then◌else◌}
use rust_mqtt_sn.Outcome.{wrong_length}
use rust_mqtt_sn.Exec.{Exec, raise, lift, ◌>>=◌}
use rust_mqtt_sn.Client.Messages.WillMsgReq.{try_read, try_write}
use rust_mqtt_sn.Client.Consts.{msg_type_willmessagereq, msg_len_willmessagereq}
use rust_mqtt_sn.Client.{Client, transmit, cancel}

unfoldable pub tx : ℕ → Exec Client (Unit {0})
tx addr =
    transmit addr
      (try_write (record { len = msg_len_willmessagereq; msg_type = msg_type_willmessagereq }))

unfoldable pub rx : List ℕ → ℕ → ℕ → Exec Client (Unit {0})
rx buf size addr = do
  (will_msg_req, read_len) ← lift (try_read buf size)
  if read_len == msg_len_willmessagereq
      then cancel addr will_msg_req.msg_type 0 0
      else raise wrong_length
