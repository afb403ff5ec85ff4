-- ===== src/Handlers/Subscribing.antt =====
-- What SUBSCRIBE and UNSUBSCRIBE do to the subscriptions: `recv` of lib/broker-lib/src/subscribe.rs
-- and of unsubscribe.rs, after the message was read.
use rust_mqtt_sn.Prelude.{
  ℕ, ◌≡◌, ◌&&◌, none, some, List, [], ◌∷◌, ◌++◌, arith, ◌==◌, nat_eq, list_eq, if◌then◌else◌,
}
use rust_mqtt_sn.Prelude.Bytes.{high, low}
use rust_mqtt_sn.Outcome.{ok}
use rust_mqtt_sn.Bisetmap.{BisetMaps}
use rust_mqtt_sn.Topics.{
  Topics, try_insert_topic_name, get_topic_id_with_topic_name, unsubscribe_with_topic_name,
}
use rust_mqtt_sn.Topics.Subscriptions.{
  subscription, subscription_lem, subscription-subscribe, subscription-unsubscribe,
}
use rust_mqtt_sn.Wire.Flags.{flag_qos_level, flag_topic_id_type, topic_id_type_normal}
use rust_mqtt_sn.Wire.Header.{MsgHeader}
use rust_mqtt_sn.Wire.Messages.Subscribe.{Subscribe}
use rust_mqtt_sn.Wire.Messages.SubAck
use rust_mqtt_sn.Wire.Messages.Unsubscribe.{Unsubscribe}
use rust_mqtt_sn.Broker.{Broker, try_send}
use rust_mqtt_sn.Broker.Delivery.{IsReady}
use rust_mqtt_sn.Handlers.Subscribe
use rust_mqtt_sn.Handlers.SubAck as SubAckOut
use rust_mqtt_sn.Handlers.Unsubscribe as Unsubscribing

abbrev pub suback : ℕ → ℕ → ℕ → List ℕ
suback flags topic_id msg_id =
    8 ∷ 19 ∷ flags ∷ high topic_id ∷ low topic_id ∷ high msg_id ∷ low msg_id ∷ 0 ∷ []

module _ ⦃B : BisetMaps⦄ where
  -- Giving a name its id changes no subscription.
  subscription-try_insert :
      (name : List ℕ) (j a : ℕ) (t : Topics)
      → subscription j a ((try_insert_topic_name name t).1) ≡ subscription j a t
  unfolding try_insert_topic_name
  subscription-try_insert name j a t =
      ground
        (arith, subscription_lem j a ((try_insert_topic_name name t).1), subscription_lem j a t)

  -- In a ready broker, a SUBSCRIBE to a topic name is answered by a SUBACK with the id of the name, subscribes the
  -- sender to that id with the QoS it asked for, and changes no other subscription.
  pub receive-subscribes :
      (m : Subscribe) (h : MsgHeader) (b : Broker) (j a : ℕ)
      → IsReady b
      → flag_topic_id_type m.flags ≡ topic_id_type_normal
      → ((Subscribe.receive m h b).0 ≡ ok tt)
        × ((Subscribe.receive m h b).1.egress
            ≡ b.egress
              ++ ((
                h.remote_socket_addr,
                suback m.flags ((try_insert_topic_name m.topic_name b.topics).0) m.msg_id,
              )
                  ∷ []))
        × (subscription j a ((Subscribe.receive m h b).1.topics) ≡ (
            if ((try_insert_topic_name m.topic_name b.topics).0 == j) && (h.remote_socket_addr == a)
            then some (flag_qos_level m.flags)
            else subscription j a b.topics))
  unfolding Subscribe.receive SubAckOut.send SubAck.try_write try_send
  receive-subscribes m h b j a r kind =
      let (id, t) = try_insert_topic_name m.topic_name b.topics in
      ground (
        arith,
        r.opened,
        subscription-subscribe h.remote_socket_addr id (flag_qos_level m.flags) a j t,
        subscription-try_insert m.topic_name j a b.topics,
      )

  -- An UNSUBSCRIBE from a topic name that has an id ends the sender's subscription to that id and
  -- no other subscription, and nothing is sent.
  pub receive-unsubscribes :
      (m : Unsubscribe) (h : MsgHeader) (b : Broker) (id j a : ℕ)
      → flag_topic_id_type m.flags ≡ topic_id_type_normal
      → get_topic_id_with_topic_name m.topic_name b.topics ≡ some id
      → ((Unsubscribing.receive m h b).0 ≡ ok tt)
        × ((Unsubscribing.receive m h b).1.egress ≡ b.egress)
        × (subscription j a ((Unsubscribing.receive m h b).1.topics) ≡ (
            if (id == j) && (h.remote_socket_addr == a) then none else subscription j a b.topics))
  unfolding Unsubscribing.receive unsubscribe_with_topic_name get_topic_id_with_topic_name
  receive-unsubscribes m h b id j a kind held =
      ground (arith, subscription-unsubscribe h.remote_socket_addr id a j b.topics)
