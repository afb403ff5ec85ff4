-- ===== src/Handlers/WillMsg.antt =====
-- WILLMSG: lib/broker-lib/src/will_msg.rs.
use rust_mqtt_sn.Prelude.{ℕ, ◌+◌, ◌&&◌, List, length, ltb, ◌==◌, nat_eq, if◌then◌else◌}
use rust_mqtt_sn.Prelude.Bytes.{u8, u16}
use rust_mqtt_sn.Outcome.{Outcome, ok, err, wrong_length, too_long}
use rust_mqtt_sn.Exec.{Exec, raise, lift, ◌>>=◌, ◌>>◌}
use rust_mqtt_sn.Bisetmap.{BisetMaps}
use rust_mqtt_sn.Wire.Consts.{msg_type_will_msg, msg_len_will_msg_header, return_code_accepted}
use rust_mqtt_sn.Wire.Header.{MsgHeader}
use rust_mqtt_sn.Broker.{Broker, try_send}
use rust_mqtt_sn.Wire.Messages.WillMsg
use rust_mqtt_sn.Wire.Messages.WillMsg4
use rust_mqtt_sn.Broker.Clients.{update_will_msg}
use rust_mqtt_sn.Handlers.ConnAck

-- The message that is sent, in the form that its length asks for.
unfoldable pub message : List ℕ → Outcome (List ℕ)
message msg =
    let len = msg_len_will_msg_header + length msg in
    if ltb len 256
    then ok (WillMsg.try_write (record { len = u8 len; msg_type = msg_type_will_msg; msg = msg }))
    else (if ltb len 1400
        then ok (
            WillMsg4.try_write
              (record { one = 1; len = u16 len; msg_type = msg_type_will_msg; msg = msg }))
        else err too_long)

module _ ⦃B : BisetMaps⦄ where
  unfoldable pub recv : List ℕ → ℕ → MsgHeader → Exec Broker (Unit {0})
  recv buf size header =
      if ltb size 256
      then (do
        (m, read_len) ← lift (WillMsg.try_read buf size)
        if size == read_len + length m.msg
            then (do
              update_will_msg header.remote_socket_addr m.msg
              ConnAck.send header return_code_accepted)
            else raise wrong_length)
      else (if ltb size 1400
          then (do
            (m, read_len) ← lift (WillMsg4.try_read buf size)
            if size == read_len + length m.msg && m.one == 1
                then (do
                  update_will_msg header.remote_socket_addr m.msg
                  ConnAck.send header return_code_accepted)
                else raise wrong_length)
          else raise too_long)

  unfoldable pub send : List ℕ → MsgHeader → Exec Broker (Unit {0})
  unfolding message
  send msg header = do bytes ← lift (message msg); try_send header.remote_socket_addr bytes
