-- ===== src/Handlers/Unsubscribe.antt =====
-- UNSUBSCRIBE: lib/broker-lib/src/unsubscribe.rs.
use rust_mqtt_sn.Prelude.{
  ℕ, ◌+◌, ◌-◌, ◌*◌, ◌&&◌, Option, none, some, List, [], ◌∷◌, length, ltb, leb, ◌==◌, nat_eq,
  if◌then◌else◌,
}
use rust_mqtt_sn.Prelude.Bytes.{u8}
use rust_mqtt_sn.Outcome.{Outcome, too_long, unsupported, not_a_number}
use rust_mqtt_sn.Exec.{Exec, raise, lift, ◌>>=◌, ◌>>◌}
use rust_mqtt_sn.Bisetmap.{BisetMaps}
use rust_mqtt_sn.Wire.Consts.{msg_type_unsubscribe, msg_type_unsuback, msg_len_unsubscribe_header}
use rust_mqtt_sn.Wire.Reader.{read_from}
use rust_mqtt_sn.Wire.Header.{MsgHeader, MsgHeaderLen, short, long}
use rust_mqtt_sn.Broker.{Broker, try_send, schedule_timer, set_topics, try_topics, retain}
use rust_mqtt_sn.Wire.Flags.{
  dup_false, will_false, clean_session_false, topic_id_type_normal, topic_id_type_pre_defined,
  flag_topic_id_type, flags_set,
}
use rust_mqtt_sn.Topics.{unsubscribe_with_topic_name, unsubscribe_with_topic_id}
use rust_mqtt_sn.Wire.Messages.Unsubscribe.{Unsubscribe, try_read, try_write}

-- `Unsubscribe::new`
unfoldable pub new : ℕ → ℕ → ℕ → List ℕ → Unsubscribe
new qos retain msg_id topic_name = record {
  len = u8 (length topic_name + 5);
  msg_type = msg_type_unsubscribe;
  flags = flags_set dup_false qos retain will_false clean_session_false topic_id_type_normal;
  msg_id = msg_id;
  topic_name = topic_name;
}

-- The long form is read three octets on, up to the size of the whole datagram.
unfoldable pub read_message : MsgHeaderLen → List ℕ → ℕ → Outcome (Unsubscribe × ℕ)
read_message short buf size = try_read buf size
read_message long buf size = read_from 3 try_read buf size

-- `str::parse::<u16>`: digits after at most one plus sign, at least one of them.
unfoldable pub digits : ℕ → List ℕ → Option ℕ
digits n [] = some n
digits n (c ∷ cs) =
    let rest = digits (n * 10 + (c - 48)) cs in
    if leb 48 c && leb c 57 && ltb (n * 10 + (c - 48)) 65536 then rest else none

unfoldable pub parse_digits : List ℕ → Option ℕ
parse_digits [] = none
parse_digits (c ∷ cs) = digits 0 (c ∷ cs)

unfoldable pub parse_u16 : List ℕ → Option ℕ
unfolding parse_digits digits
parse_u16 [] = none
parse_u16 (c ∷ cs) = if c == 43 then parse_digits cs else parse_digits (c ∷ cs)

module _ ⦃B : BisetMaps⦄ where
  unfoldable pub send : List ℕ → ℕ → ℕ → ℕ → MsgHeader → Exec Broker (Unit {0})
  unfolding new
  send topic msg_id qos retain header =
      let bytes = try_write (new qos retain msg_id topic) in
      if ltb (length topic + msg_len_unsubscribe_header) 256
      then (do
        try_send header.remote_socket_addr bytes
        schedule_timer header.remote_socket_addr msg_type_unsuback 0 msg_id 1 bytes)
      else raise too_long

  -- The `match` on the type of the topic id. No UNSUBACK is sent.
  unfoldable pub receive : Unsubscribe → MsgHeader → Exec Broker (Unit {0})
  unfolding parse_u16
  receive m header =
      let addr = header.remote_socket_addr in
      let kind = flag_topic_id_type m.flags in
      if kind == topic_id_type_normal
      then try_topics (unsubscribe_with_topic_name addr m.topic_name)
      else (if kind == topic_id_type_pre_defined
          then (elim (parse_u16 m.topic_name) [
            | none ↦ raise not_a_number
            | some topic_id ↦ set_topics (unsubscribe_with_topic_id addr topic_id)
          ])
          else raise unsupported)

  unfoldable pub recv : List ℕ → ℕ → MsgHeader → Exec Broker (Unit {0})
  unfolding read_message receive
  recv buf size header = do
    (m, _) ← lift (read_message header.header_len buf size)
    receive m header
