-- ===== src/Tests/Brokers.antt =====
-- The properties of publications and of the loop at a broker with two connections.
use rust_mqtt_sn.Prelude.{◌≡◌, refl, true, put, some, [], ◌∷◌, arith, nat_eq, list_eq, pair_eq}
use rust_mqtt_sn.Outcome.{ok}
use rust_mqtt_sn.Bisetmap.Pairs.{pairs}
use rust_mqtt_sn.Connection.{Connection, asleep}
use rust_mqtt_sn.Broker.{Broker, publish_eq}
use rust_mqtt_sn.Wire.Flags.{flag_qos_level}
use rust_mqtt_sn.Broker.Sending.{send_msg_to_subscribers}
use rust_mqtt_sn.Broker.Delivery.{Sends, deliveries, send_msg_to_subscribers-Sends}
use rust_mqtt_sn.Broker.Asleep.{contains-send_msg_to_subscribers}
use rust_mqtt_sn.Handlers.PubRel.{complete}
use rust_mqtt_sn.Handlers.Publish.{receive}
use rust_mqtt_sn.Handlers.QosLevels.{
  released, puback, pubrec, pubcomp, receive-qos_1, receive-qos_2,
}
use rust_mqtt_sn.Handlers.ExactlyOnce.{complete-Sends, complete-twice}
use rust_mqtt_sn.Dispatch.{ingress}
use rust_mqtt_sn.Isolation.Datagrams.{ingress-others}
use rust_mqtt_sn.Broker.Migration.{IsMovable, heir, after_move, try_insert-migrates}
use rust_mqtt_sn.Broker.Clients.{try_insert}
use rust_mqtt_sn.Topics.Subscriptions.{subscription}
use rust_mqtt_sn.Wire.Flags.{flag_is_clean_session, flag_is_will}
use rust_mqtt_sn.Tests.Data.{broker, broker-IsReady, conn, header, publish, subs}

send_msg_to_subscribers-Sends_example :
    ((send_msg_to_subscribers subs (publish 0) broker).0 ≡ ok tt)
    × Sends broker
        ((send_msg_to_subscribers subs (publish 0) broker).1)
        (deliveries broker.conn_hashmap subs (publish 0))
send_msg_to_subscribers-Sends_example =
    send_msg_to_subscribers-Sends subs (publish 0) broker broker-IsReady

receive-qos_1_example :
    ((receive (publish 32) subs (header 7 12) broker).0 ≡ ok tt)
    × Sends broker
        ((receive (publish 32) subs (header 7 12) broker).1)
        ((7, puback 0 9) ∷ deliveries broker.conn_hashmap subs (publish 32))
unfolding flag_qos_level
receive-qos_1_example = receive-qos_1 (publish 32) subs (header 7 12) broker broker-IsReady refl

receive-qos_2_example :
    ((receive (publish 64) subs (header 7 12) broker).0 ≡ ok tt)
    × ((receive (publish 64) subs (header 7 12) broker).1.egress ≡ (7, pubrec 9) ∷ [])
    × ((receive (publish 64) subs (header 7 12) broker).1.pub_msg_cache (7, 9)
        ≡ some (record { publish = publish 64; subscriber_vec = subs }))
unfolding flag_qos_level
receive-qos_2_example = receive-qos_2 (publish 64) subs (header 7 12) broker broker-IsReady refl

complete-Sends_example :
    Sends broker
      ((complete 9 (header 7 16) broker).1)
      ((7, pubcomp 9) ∷ released broker.conn_hashmap (broker.pub_msg_cache (7, 9)))
complete-Sends_example = complete-Sends 9 (header 7 16) broker broker-IsReady

complete-twice_example :
    Sends
      ((complete 9 (header 7 16) broker).1)
      ((complete 9 (header 7 16) ((complete 9 (header 7 16) broker).1)).1)
      ((7, pubcomp 9) ∷ [])
complete-twice_example = complete-twice 9 (header 7 16) broker broker-IsReady

ingress-others_example : (ingress 7 (2 ∷ 24 ∷ []) broker).1.conn_hashmap 8 ≡ broker.conn_hashmap 8
ingress-others_example = ingress-others 7 8 (2 ∷ 24 ∷ []) broker (omega arith)

-- The address 8 is asleep.
abbrev napping : Connection
napping = record (conn 8) { state = asleep }

abbrev night : Broker
night = record broker { conn_hashmap = put broker.conn_hashmap 8 napping }

contains-send_msg_to_subscribers_example :
    pairs.contains
      ((send_msg_to_subscribers subs (publish 0) night).1.asleep_msg_cache)
      8
      (publish 0)
    ≡ true
contains-send_msg_to_subscribers_example =
    contains-send_msg_to_subscribers 8 (publish 0) subs napping night
      (record { opened = refl; map_free = refl; slots_free = refl; slot_free = refl }) refl refl
      refl

-- The client of the address 8 connects from the address 9.
moving-IsMovable : IsMovable 8 broker.topics
moving-IsMovable = record { once = (refl, tt); stored = λ id held. (0, ground (arith, held)) }

try_insert-migrates_example :
    ((try_insert 9 0 1 60 (8 ∷ []) broker).0 ≡ ok tt)
    × ((try_insert 9 0 1 60 (8 ∷ []) broker).1.conn_hashmap
        ≡ put broker.conn_hashmap 9 (heir 9 0 1 60 (8 ∷ []) (conn 8)))
    × ((try_insert 9 0 1 60 (8 ∷ []) broker).1.client_id_map
        ≡ pairs.insert broker.client_id_map (8 ∷ []) 9)
    × (subscription 0 9 (try_insert 9 0 1 60 (8 ∷ []) broker).1.topics
        ≡ after_move 8 9 0 9 broker.topics)
unfolding flag_is_clean_session flag_is_will
try_insert-migrates_example =
    try_insert-migrates 9 0 1 60 (8 ∷ []) 8 0 9 (conn 8) broker refl refl (omega arith) refl refl
      refl refl moving-IsMovable
