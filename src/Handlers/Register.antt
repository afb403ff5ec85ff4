-- ===== src/Handlers/Register.antt =====
-- REGISTER: lib/broker-lib/src/register.rs.
use rust_mqtt_sn.Prelude.{
  ℕ, ◌+◌, Option, none, some, List, [], ◌∷◌, ◌++◌, length, ltb, if◌then◌else◌,
}
use rust_mqtt_sn.Prelude.Bytes.{high, low, u8}
use rust_mqtt_sn.Outcome.{Outcome, ok, err, too_long}
use rust_mqtt_sn.Exec.{Exec, lift, gets, ◌>>=◌, ◌>>◌}
use rust_mqtt_sn.Bisetmap.{BisetMaps}
use rust_mqtt_sn.Wire.Consts.{
  msg_type_register, msg_type_regack, msg_len_register_header, return_code_accepted,
  return_code_invalid_topic_id,
}
use rust_mqtt_sn.Wire.Reader.{read_from}
use rust_mqtt_sn.Wire.Header.{MsgHeader, MsgHeaderLen, short, long}
use rust_mqtt_sn.Broker.{Broker, try_send, schedule_timer}
use rust_mqtt_sn.Topics.{get_topic_id_with_topic_name}
use rust_mqtt_sn.Wire.Messages.Register.{Register, try_read}
use rust_mqtt_sn.Handlers.RegAck

-- The long form is read three octets on, up to the size of the whole datagram.
unfoldable pub read_message : MsgHeaderLen → List ℕ → ℕ → Outcome (Register × ℕ)
read_message short buf size = try_read buf size
read_message long buf size = read_from 3 try_read buf size

-- The length of the message as it is written: one octet or three.
unfoldable pub length_octets : ℕ → Outcome (List ℕ)
length_octets len =
    if ltb len 256
    then ok (u8 len ∷ [])
    else (if ltb len 1400 then ok (1 ∷ high len ∷ low len ∷ []) else err too_long)

module _ ⦃B : BisetMaps⦄ where
  -- The id that the name has, or a refusal.
  unfoldable pub answer : Option ℕ → ℕ → MsgHeader → Exec Broker (Unit {0})
  answer none msg_id header = RegAck.send 0 msg_id return_code_invalid_topic_id header
  answer (some topic_id) msg_id header = RegAck.send topic_id msg_id return_code_accepted header

  unfoldable pub recv : List ℕ → ℕ → MsgHeader → Exec Broker (Unit {0})
  unfolding read_message answer
  recv buf size header = do
    (m, _) ← lift (read_message header.header_len buf size)
    found ← gets (λ b. get_topic_id_with_topic_name m.topic_name b.topics)
    answer found m.msg_id header

  unfoldable pub send : ℕ → ℕ → List ℕ → MsgHeader → Exec Broker (Unit {0})
  unfolding length_octets
  send topic_id msg_id topic_name header = do
    first ← lift (length_octets (msg_len_register_header + length topic_name))
    let bytes =
        first
        ++ (msg_type_register
            ∷ high topic_id
            ∷ low topic_id
            ∷ high msg_id
            ∷ low msg_id
            ∷ topic_name)
    try_send header.remote_socket_addr bytes
    schedule_timer header.remote_socket_addr msg_type_regack topic_id msg_id 1 bytes
