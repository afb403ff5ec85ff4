-- ===== src/Client/Handlers/Publish.antt =====
-- PUBLISH: lib/client-lib/src/Publish.rs.
use rust_mqtt_sn.Prelude.{ℕ, ◌+◌, List, length, ◌==◌, nat_eq, if◌then◌else◌}
use rust_mqtt_sn.Prelude.Bytes.{u8}
use rust_mqtt_sn.Outcome.{wrong_length}
use rust_mqtt_sn.Exec.{Exec, pure, raise, lift, ◌>>=◌, ◌>>◌}
use rust_mqtt_sn.Wire.Flags.{
  flags_set, flag_qos_level, dup_false, will_false, clean_session_false, topic_id_type_normal,
  qos_level_1, qos_level_2,
}
use rust_mqtt_sn.Wire.Messages.Publish.{Publish, try_read, try_write}
use rust_mqtt_sn.Client.Consts.{
  msg_type_publish, msg_type_puback, msg_type_pubrec, msg_type_pubrel, return_code_accepted,
}
use rust_mqtt_sn.Client.{Client, transmit, schedule, hand_over}
use rust_mqtt_sn.Client.Handlers.PubAck
use rust_mqtt_sn.Client.Handlers.PubRec

-- `as u8` drops what is above 255.
unfoldable pub new : ℕ → ℕ → ℕ → ℕ → List ℕ → Publish
new topic_id msg_id qos retain payload = record {
  len = u8 (length payload + 7);
  msg_type = msg_type_publish;
  flags = flags_set dup_false qos retain will_false clean_session_false topic_id_type_normal;
  topic_id = topic_id;
  msg_id = msg_id;
  payload = payload;
}

-- The timer that the QoS asks for.
abbrev pub await_ack : ℕ → ℕ → ℕ → List ℕ → ℕ → Exec Client (Unit {0})
await_ack topic_id msg_id qos bytes addr =
    if qos == qos_level_1
    then schedule addr msg_type_puback topic_id msg_id bytes
    else (if qos == qos_level_2 then schedule addr msg_type_pubrec 0 msg_id bytes else pure tt)

unfoldable pub tx : ℕ → ℕ → ℕ → ℕ → List ℕ → ℕ → Exec Client (Unit {0})
unfolding new
tx topic_id msg_id qos retain payload addr =
    let bytes = try_write (new topic_id msg_id qos retain payload) in
    transmit addr bytes >> await_ack topic_id msg_id qos bytes addr

-- The answer that the QoS asks for.
unfoldable pub answer : Publish → ℕ → Exec Client (Unit {0})
answer publish addr =
    let qos = flag_qos_level publish.flags in
    if qos == qos_level_1
    then PubAck.tx publish.topic_id publish.msg_id return_code_accepted addr
    else (if qos == qos_level_2
        then (do
          bytes ← PubRec.tx publish.msg_id addr
          schedule addr msg_type_pubrel 0 publish.msg_id bytes)
        else pure tt)

unfoldable pub rx : List ℕ → ℕ → ℕ → Exec Client (Unit {0})
unfolding answer
rx buf size addr = do
  (publish, read_fixed_len) ← lift (try_read buf size)
  if read_fixed_len + length publish.payload == size
      then answer publish addr >> hand_over publish
      else raise wrong_length
