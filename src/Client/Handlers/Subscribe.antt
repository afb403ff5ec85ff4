-- ===== src/Client/Handlers/Subscribe.antt =====
-- SUBSCRIBE: lib/client-lib/src/Subscribe.rs.
use rust_mqtt_sn.Prelude.{ℕ, ◌+◌, List, length, ◌==◌, nat_eq, if◌then◌else◌}
use rust_mqtt_sn.Prelude.Bytes.{u8}
use rust_mqtt_sn.Outcome.{wrong_length}
use rust_mqtt_sn.Exec.{Exec, raise, lift, ◌>>=◌, ◌>>◌}
use rust_mqtt_sn.Wire.Flags.{flags_set, dup_false, will_false, clean_session_false}
use rust_mqtt_sn.Wire.Messages.Subscribe.{Subscribe, try_read, try_write}
use rust_mqtt_sn.Client.Consts.{msg_type_subscribe, msg_type_suback}
use rust_mqtt_sn.Client.{Client, transmit, schedule}
use rust_mqtt_sn.Client.Handlers.SubAck

-- `as u8` drops what is above 255.
unfoldable pub new : List ℕ → ℕ → ℕ → ℕ → ℕ → Subscribe
new topic_name msg_id qos retain topic_id_type = record {
  len = u8 (length topic_name + 5);
  msg_type = msg_type_subscribe;
  flags = flags_set dup_false qos retain will_false clean_session_false topic_id_type;
  msg_id = msg_id;
  topic_name = topic_name;
}

unfoldable pub tx : List ℕ → ℕ → ℕ → ℕ → ℕ → ℕ → Exec Client (Unit {0})
unfolding new
tx topic msg_id qos retain topic_id_type addr =
    let bytes = try_write (new topic msg_id qos retain topic_id_type) in
    transmit addr bytes >> schedule addr msg_type_suback 0 0 bytes

-- The constants QOS_LEVEL_1 and QOS_LEVEL_2 are commented out of the imports of Subscribe.rs, so
-- the first arm of its `match` binds a name and takes every QoS. The topic id and the return code
-- mean nothing yet.
abbrev pub acknowledge : Subscribe → ℕ → Exec Client (Unit {0})
acknowledge subscribe addr = SubAck.tx subscribe.flags 888 subscribe.msg_id 99 addr

unfoldable pub rx : List ℕ → ℕ → ℕ → Exec Client (Unit {0})
rx buf size addr = do
  (subscribe, read_fixed_len) ← lift (try_read buf size)
  if read_fixed_len + length subscribe.topic_name == size
      then acknowledge subscribe addr
      else raise wrong_length
