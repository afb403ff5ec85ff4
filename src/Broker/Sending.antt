-- ===== src/Broker/Sending.antt =====
-- How a PUBLISH leaves the broker: `Publish::send` and `Publish::send_msg_to_subscribers` of
-- lib/broker-lib/src/publish.rs.
use rust_mqtt_sn.Prelude.{
  ℕ, ◌+◌, Option, none, some, List, [], ◌∷◌, ◌++◌, length, ltb, ◌==◌, nat_eq, if◌then◌else◌,
}
use rust_mqtt_sn.Prelude.Bytes.{high, low, u8}
use rust_mqtt_sn.Outcome.{Outcome, ok, err, too_long}
use rust_mqtt_sn.Exec.{Exec, pure, lift, attempt, ◌>>=◌, ◌>>◌}
use rust_mqtt_sn.Bisetmap.{BisetMaps}
use rust_mqtt_sn.Connection.{Connection, StateEnum2, active, asleep, awake, disconnected, lost}
use rust_mqtt_sn.Topics.{Subscriber}
use rust_mqtt_sn.Wire.Consts.{
  msg_type_publish, msg_type_puback, msg_type_pubrec, msg_len_publish_header,
}
use rust_mqtt_sn.Wire.Flags.{
  flags_set, dup_false, will_false, clean_session_false, topic_id_type_normal, qos_level_1,
  qos_level_2, retain_false,
}
use rust_mqtt_sn.Wire.Messages.Publish.{Publish}
use rust_mqtt_sn.Broker.{Broker, try_send, schedule_timer, cache_asleep}

-- The octets before the data: the message id stands before the topic id.
unfoldable pub publish_header : ℕ → ℕ → ℕ → ℕ → Outcome (List ℕ)
publish_header len flags topic_id msg_id =
    let ids = high msg_id ∷ low msg_id ∷ high topic_id ∷ low topic_id ∷ [] in
    if ltb len 256
    then ok (u8 len ∷ msg_type_publish ∷ flags ∷ ids)
    else (if ltb len 1400
        then ok (1 ∷ high len ∷ low len ∷ msg_type_publish ∷ flags ∷ ids)
        else err too_long)

module _ ⦃B : BisetMaps⦄ where
  -- The timer that the QoS asks for.
  abbrev pub await_ack : ℕ → ℕ → ℕ → List ℕ → Exec Broker (Unit {0})
  await_ack qos addr msg_id bytes =
      if qos == qos_level_1
      then schedule_timer addr msg_type_puback 0 msg_id 10 bytes
      else (if qos == qos_level_2
          then schedule_timer addr msg_type_pubrec 0 msg_id 1 bytes
          else pure tt)

  -- `Publish::send`
  unfoldable pub send : ℕ → ℕ → ℕ → ℕ → List ℕ → ℕ → Exec Broker (Unit {0})
  unfolding publish_header
  send topic_id msg_id qos retain payload remote_addr =
      let flags =
        flags_set dup_false qos retain will_false clean_session_false topic_id_type_normal in
      let len = length payload + msg_len_publish_header in
      do
        header ← lift (publish_header len flags topic_id msg_id)
        await_ack qos remote_addr msg_id (header ++ payload)
        try_send remote_addr (header ++ payload)

  -- The message as the state of the subscriber's connection has it.
  unfoldable pub send_in : StateEnum2 → Subscriber → Publish → Exec Broker (Unit {0})
  send_in active s p = attempt (send p.topic_id p.msg_id s.qos retain_false p.payload s.socket_addr)
  send_in asleep s p = cache_asleep s.socket_addr p
  send_in awake s p = pure tt
  send_in disconnected s p = pure tt
  send_in lost s p = pure tt

  -- The `match` on `Connection::get_state`: an unknown address is only logged.
  unfoldable pub send_known : Option Connection → Subscriber → Publish → Exec Broker (Unit {0})
  unfolding send_in
  send_known none s p = pure tt
  send_known (some c) s p = send_in c.state s p

  -- One round of the loop of `send_msg_to_subscribers`.
  unfoldable pub send_to : Subscriber → Publish → Exec Broker (Unit {0})
  unfolding send_known
  send_to s p b = send_known (b.conn_hashmap s.socket_addr) s p b

  -- `Publish::send_msg_to_subscribers`
  unfoldable pub send_msg_to_subscribers : List Subscriber → Publish → Exec Broker (Unit {0})
  send_msg_to_subscribers [] p = pure tt
  send_msg_to_subscribers (s ∷ ss) p = send_to s p >> send_msg_to_subscribers ss p

  -- The loop that publishes a will: in `Connection::publish_will` and in `Disconnect::recv`.
  unfoldable pub send_will : ℕ → List ℕ → List Subscriber → Exec Broker (Unit {0})
  send_will topic_id msg [] = pure tt
  send_will topic_id msg (s ∷ ss) =
      attempt (send topic_id 0 s.qos retain_false msg s.socket_addr) >> send_will topic_id msg ss
