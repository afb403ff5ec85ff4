-- ===== src/Handlers/Publish.antt =====
-- PUBLISH as the broker receives it: `Publish::recv` of lib/broker-lib/src/publish.rs.
use rust_mqtt_sn.Prelude.{ℕ, ◌-◌, List, ◌==◌, nat_eq, if◌then◌else◌}
use rust_mqtt_sn.Outcome.{Outcome, unsupported}
use rust_mqtt_sn.Exec.{Exec, pure, raise, lift, gets, ◌>>=◌, ◌>>◌}
use rust_mqtt_sn.Bisetmap.{BisetMaps}
use rust_mqtt_sn.Wire.Consts.{msg_type_pubrel, return_code_accepted}
use rust_mqtt_sn.Wire.Reader.{read_from}
use rust_mqtt_sn.Wire.Header.{MsgHeader, MsgHeaderLen, short, long}
use rust_mqtt_sn.Broker.{Broker, schedule_timer, cache_publish, retain}
use rust_mqtt_sn.Wire.Flags.{qos_level_1, qos_level_2, qos_level_3, flag_qos_level, flag_is_retain}
use rust_mqtt_sn.Topics.{Subscriber, get_subscribers_with_topic_id}
use rust_mqtt_sn.Wire.Messages.Publish.{Publish, try_read}
use rust_mqtt_sn.Handlers.PubAck
use rust_mqtt_sn.Handlers.PubRec
use rust_mqtt_sn.Broker.Sending.{send_msg_to_subscribers}

-- The message, after the two octets that a long header has more; its `len` is cleared.
unfoldable pub read_message : MsgHeaderLen → List ℕ → ℕ → Outcome (Publish × ℕ)
read_message short buf size = try_read buf size
read_message long buf size = read_from 2 try_read buf (size - 2)

module _ ⦃B : BisetMaps⦄ where
  -- QoS 2: PUBREC, its timer, and the message is kept until PUBREL.
  unfoldable pub hold : Publish → List Subscriber → MsgHeader → Exec Broker (Unit {0})
  hold publish subs header = do
    bytes ← PubRec.send publish.msg_id header
    schedule_timer header.remote_socket_addr msg_type_pubrel 0 publish.msg_id 1 bytes
    cache_publish (header.remote_socket_addr, publish.msg_id)
        (record { publish = publish; subscriber_vec = subs })

  -- The end of the other branches: the retained message, and the subscribers.
  unfoldable pub deliver : Publish → List Subscriber → Exec Broker (Unit {0})
  deliver publish subs = do
    if flag_is_retain publish.flags
        then retain (record {
          qos = flag_qos_level publish.flags;
          topic_id = publish.topic_id;
          msg_id = publish.msg_id;
          payload = publish.payload;
        })
        else pure tt
    send_msg_to_subscribers subs publish

  -- The `match` on the QoS level.
  unfoldable pub receive : Publish → List Subscriber → MsgHeader → Exec Broker (Unit {0})
  unfolding hold deliver
  receive publish subs header =
      let qos = flag_qos_level publish.flags in
      if qos == qos_level_2
      then hold publish subs header
      else (if qos == qos_level_1
          then PubAck.send publish.topic_id publish.msg_id return_code_accepted header
            >> deliver publish subs
          else (if qos == qos_level_3 then raise unsupported else deliver publish subs))

  unfoldable pub recv : List ℕ → ℕ → MsgHeader → Exec Broker (Unit {0})
  unfolding read_message receive
  recv buf size header = do
    (publish, _) ← lift (read_message header.header_len buf size)
    subs ← gets (λ b. get_subscribers_with_topic_id publish.topic_id b.topics)
    receive (record publish { len = 0 }) subs header
