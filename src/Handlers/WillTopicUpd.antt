-- ===== src/Handlers/WillTopicUpd.antt =====
-- WILLTOPICUPD: lib/broker-lib/src/will_topic_upd.rs.
use rust_mqtt_sn.Prelude.{ℕ, ◌+◌, ◌&&◌, List, length, ltb, ◌==◌, nat_eq, if◌then◌else◌}
use rust_mqtt_sn.Prelude.Bytes.{u8, u16}
use rust_mqtt_sn.Outcome.{Outcome, ok, err, wrong_length, too_long}
use rust_mqtt_sn.Exec.{Exec, raise, lift, ◌>>=◌, ◌>>◌}
use rust_mqtt_sn.Bisetmap.{BisetMaps}
use rust_mqtt_sn.Wire.Consts.{
  msg_type_will_topic_upd, msg_len_will_topic_upd_header, return_code_accepted,
}
use rust_mqtt_sn.Wire.Header.{MsgHeader}
use rust_mqtt_sn.Broker.{Broker, try_send}
use rust_mqtt_sn.Wire.Messages.WillTopicUpd
use rust_mqtt_sn.Wire.Messages.WillTopicUpd4
use rust_mqtt_sn.Broker.Clients.{update_will_topic}
use rust_mqtt_sn.Handlers.WillTopicResp

-- The message that is sent, in the form that its length asks for.
unfoldable pub message : ℕ → List ℕ → Outcome (List ℕ)
message flags will_topic =
    let len = msg_len_will_topic_upd_header + length will_topic in
    if ltb len 256
    then ok (
        WillTopicUpd.try_write (record {
          len = u8 len;
          msg_type = msg_type_will_topic_upd;
          flags = flags;
          will_topic = will_topic;
        }))
    else (if ltb len 1400
        then ok (
            WillTopicUpd4.try_write (record {
              one = 1;
              len = u16 len;
              msg_type = msg_type_will_topic_upd;
              flags = flags;
              will_topic = will_topic;
            }))
        else err too_long)

module _ ⦃B : BisetMaps⦄ where
  unfoldable pub recv : List ℕ → ℕ → MsgHeader → Exec Broker (Unit {0})
  recv buf size header =
      if ltb size 256
      then (do
        (m, read_len) ← lift (WillTopicUpd.try_read buf size)
        if size == read_len
            then (do
              update_will_topic header.remote_socket_addr m.will_topic
              WillTopicResp.send return_code_accepted header)
            else raise wrong_length)
      else (if ltb size 1400
          then (do
            (m, read_len) ← lift (WillTopicUpd4.try_read buf size)
            if size == read_len && m.one == 1
                then (do
                  update_will_topic header.remote_socket_addr m.will_topic
                  WillTopicResp.send return_code_accepted header)
                else raise wrong_length)
          else raise too_long)

  unfoldable pub send : ℕ → List ℕ → MsgHeader → Exec Broker (Unit {0})
  unfolding message
  send flags will_topic header = do
    bytes ← lift (message flags will_topic)
    try_send header.remote_socket_addr bytes
