-- ===== src/Client/Handlers/WillMsgResp.antt =====
-- WILLMSGRESP: lib/client-lib/src/WillMsgResp.rs.
use rust_mqtt_sn.Prelude.{ℕ, List, ◌==◌, nat_eq, if◌then◌else◌}
use rust_mqtt_sn.Outcome.{wrong_length}
use rust_mqtt_sn.Exec.{Exec, raise, lift, ◌>>=◌}
use rust_mqtt_sn.Client.Messages.WillMsgResp.{try_read, try_write}
use rust_mqtt_sn.Client.Consts.{msg_type_willmsgresp, msg_len_willmsgresp}
use rust_mqtt_sn.Client.{Client, transmit, cancel}

unfoldable pub rx : List ℕ → ℕ → ℕ → Exec Client (Unit {0})
rx buf size addr = do
  (will_msg_resp, read_len) ← lift (try_read buf size)
  if read_len == msg_len_willmsgresp
      then cancel addr will_msg_resp.msg_type 0 0
      else raise wrong_length

unfoldable pub tx : ℕ → ℕ → Exec Client (Unit {0})
tx return_code addr = transmit addr (
    try_write (record {
      len = msg_len_willmsgresp;
      msg_type = msg_type_willmsgresp;
      return_code = return_code;
    }))
