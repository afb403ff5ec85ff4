-- ===== src/Handlers/WillMsgUpd.antt =====
-- WILLMSGUPD: lib/broker-lib/src/will_msg_upd.rs.
use rust_mqtt_sn.Prelude.{ℕ, ◌+◌, ◌&&◌, List, length, ltb, ◌==◌, nat_eq, if◌then◌else◌}
use rust_mqtt_sn.Prelude.Bytes.{u8, u16}
use rust_mqtt_sn.Outcome.{Outcome, ok, err, wrong_length, too_long}
use rust_mqtt_sn.Exec.{Exec, raise, lift, ◌>>=◌, ◌>>◌}
use rust_mqtt_sn.Bisetmap.{BisetMaps}
use rust_mqtt_sn.Wire.Consts.{msg_type_will_msg, msg_len_will_msg_header, return_code_accepted}
use rust_mqtt_sn.Wire.Header.{MsgHeader}
use rust_mqtt_sn.Broker.{Broker, try_send}
use rust_mqtt_sn.Wire.Messages.WillMsgUpd
use rust_mqtt_sn.Wire.Messages.WillMsgUpd4
use rust_mqtt_sn.Broker.Clients.{update_will_msg}
use rust_mqtt_sn.Handlers.WillMsgResp

-- The message that is sent, in the form that its length asks for.
unfoldable pub message : List ℕ → Outcome (List ℕ)
message will_msg =
    let len = msg_len_will_msg_header + length will_msg in
    if ltb len 256
    then ok (
        WillMsgUpd.try_write
          (record { len = u8 len; msg_type = msg_type_will_msg; will_msg = will_msg }))
    else (if ltb len 1400
        then ok (
            WillMsgUpd4.try_write (record {
              one = 1;
              len = u16 len;
              msg_type = msg_type_will_msg;
              will_msg = will_msg;
            }))
        else err too_long)

module _ ⦃B : BisetMaps⦄ where
  unfoldable pub recv : List ℕ → ℕ → MsgHeader → Exec Broker (Unit {0})
  recv buf size header =
      if ltb size 256
      then (do
        (m, read_len) ← lift (WillMsgUpd.try_read buf size)
        if size == read_len
            then (do
              update_will_msg header.remote_socket_addr m.will_msg
              WillMsgResp.send return_code_accepted header)
            else raise wrong_length)
      else (if ltb size 1400
          then (do
            (m, read_len) ← lift (WillMsgUpd4.try_read buf size)
            if size == read_len && m.one == 1
                then (do
                  update_will_msg header.remote_socket_addr m.will_msg
                  WillMsgResp.send return_code_accepted header)
                else raise wrong_length)
          else raise too_long)

  unfoldable pub send : List ℕ → MsgHeader → Exec Broker (Unit {0})
  unfolding message
  send will_msg header = do
    bytes ← lift (message will_msg)
    try_send header.remote_socket_addr bytes
