-- ===== src/Handlers/Subscribe.antt =====
-- SUBSCRIBE: lib/broker-lib/src/subscribe.rs.
use rust_mqtt_sn.Prelude.{
  ℕ, ◌+◌, ◌-◌, ◌*◌, ◌%◌, Option, none, some, List, [], ◌∷◌, length, ltb, ◌==◌, nat_eq,
  if◌then◌else◌,
}
use rust_mqtt_sn.Prelude.Bytes.{u8}
use rust_mqtt_sn.Outcome.{Outcome, ok, err, wrong_length, unsupported, invalid_topic}
use rust_mqtt_sn.Exec.{Exec, pure, raise, lift, gets, ◌>>=◌, ◌>>◌}
use rust_mqtt_sn.Bisetmap.{BisetMaps}
use rust_mqtt_sn.Wire.Consts.{msg_type_subscribe, msg_type_suback, return_code_accepted}
use rust_mqtt_sn.Wire.Reader.{read_from}
use rust_mqtt_sn.Wire.Header.{MsgHeader, MsgHeaderLen, short, long}
use rust_mqtt_sn.Broker.{Broker, try_send, schedule_timer, on_topics, set_topics, Retain, retain}
use rust_mqtt_sn.Wire.Flags.{
  dup_false, retain_false, will_false, clean_session_false, topic_id_type_normal,
  topic_id_type_pre_defined, flag_qos_level, flag_topic_id_type, flags_set,
}
use rust_mqtt_sn.Topics.{try_insert_topic_name, subscribe_with_topic_id}
use rust_mqtt_sn.Wire.Messages.Subscribe.{Subscribe, try_read, try_write}
use rust_mqtt_sn.Broker.Sending
use rust_mqtt_sn.Handlers.SubAck

-- `Subscribe::new`
unfoldable pub new : ℕ → ℕ → ℕ → List ℕ → Subscribe
new qos retain msg_id topic_name = record {
  len = u8 (length topic_name + 5);
  msg_type = msg_type_subscribe;
  flags = flags_set dup_false qos retain will_false clean_session_false topic_id_type_normal;
  msg_id = msg_id;
  topic_name = topic_name;
}

unfoldable pub read_message : MsgHeaderLen → List ℕ → ℕ → Outcome (Subscribe × ℕ)
read_message short buf size = try_read buf size
read_message long buf size = read_from 2 try_read buf (size - 2)

-- The characters of a text of two octets, each shifted in: two characters of one octet, or one
-- character of two.
unfoldable pub pre_defined_id : List ℕ → Outcome ℕ
pre_defined_id (a ∷ b ∷ []) = ok (if ltb a 128 then a * 256 + b else a % 32 * 64 + b % 64)
pre_defined_id _ = err invalid_topic

module _ ⦃B : BisetMaps⦄ where
  unfoldable pub send : List ℕ → ℕ → ℕ → ℕ → MsgHeader → Exec Broker (Unit {0})
  unfolding new
  send topic msg_id qos retain header =
      let bytes = try_write (new qos retain msg_id topic) in
      do
        try_send header.remote_socket_addr bytes
        schedule_timer header.remote_socket_addr msg_type_suback 0 0 1 bytes

  -- What the topic id retained, with its QoS.
  unfoldable pub send_retained : Option Retain → ℕ → Exec Broker (Unit {0})
  send_retained none addr = pure tt
  send_retained (some r) addr = Sending.send r.topic_id r.msg_id r.qos retain_false r.payload addr

  -- The `match` on the type of the topic id.
  unfoldable pub receive : Subscribe → MsgHeader → Exec Broker (Unit {0})
  unfolding pre_defined_id send_retained
  receive m header =
      let addr = header.remote_socket_addr in
      let kind = flag_topic_id_type m.flags in
      if kind == topic_id_type_normal
      then (do
        topic_id ← on_topics (try_insert_topic_name m.topic_name)
        set_topics (subscribe_with_topic_id addr topic_id (flag_qos_level m.flags))
        SubAck.send header m.flags topic_id m.msg_id return_code_accepted)
      else (if kind == topic_id_type_pre_defined
          then (do
            topic_id ← lift (pre_defined_id m.topic_name)
            set_topics (subscribe_with_topic_id addr topic_id (flag_qos_level m.flags))
            SubAck.send header m.flags topic_id m.msg_id return_code_accepted
            retained ← gets (λ b. b.retain_map topic_id)
            send_retained retained addr)
          else raise unsupported)

  unfoldable pub recv : List ℕ → ℕ → MsgHeader → Exec Broker (Unit {0})
  unfolding read_message receive
  recv buf size header = do
    (m, read_fixed_len) ← lift (read_message header.header_len buf size)
    if read_fixed_len + length m.topic_name == size then receive m header else raise wrong_length
