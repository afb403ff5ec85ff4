-- ===== src/Tests/Clients.antt =====
-- The properties of the registry, of the beginning and the end of a connection, and of the loop, at
-- a broker with two connections.
use rust_mqtt_sn.Prelude.{
  ℕ, ◌≡◌, refl, none, some, List, [], ◌∷◌, arith, nat_eq, list_eq, pair_eq, empty_map,
  if◌then◌else◌,
}
use rust_mqtt_sn.Outcome.{ok, err, no_connection}
use rust_mqtt_sn.Bisetmap.Pairs.{pairs}
use rust_mqtt_sn.Connection.{lost, new}
use rust_mqtt_sn.KeepAlive
use rust_mqtt_sn.KeepAlive.{KeepAliveVal}
use rust_mqtt_sn.Topics.{Topics, try_insert_topic_name, get_topic_id_with_topic_name}
use rust_mqtt_sn.Topics.Subscriptions.{subscription}
use rust_mqtt_sn.Topics.Registry.{IsRegistry, try_insert-IsRegistry, get-try_insert}
use rust_mqtt_sn.Wire.Header.{MsgHeader, short, try_read, check_size}
use rust_mqtt_sn.Wire.Flags.{flag_qos_level, flag_is_will, flag_topic_id_type}
use rust_mqtt_sn.Wire.Messages.Connect as ConnectForm
use rust_mqtt_sn.Wire.Messages.Subscribe.{Subscribe}
use rust_mqtt_sn.Wire.Messages.Unsubscribe.{Unsubscribe}
use rust_mqtt_sn.Broker.Wills.{wills, expire_known}
use rust_mqtt_sn.Timers.{expire}
use rust_mqtt_sn.Handlers.Subscribe as Subscribing
use rust_mqtt_sn.Handlers.Unsubscribe as Unsubscribing
use rust_mqtt_sn.Handlers.Subscribing.{suback, receive-subscribes, receive-unsubscribes}
use rust_mqtt_sn.Handlers.Connect as Connecting
use rust_mqtt_sn.Handlers.Disconnect as Leaving
use rust_mqtt_sn.Handlers.Sessions.{leave_known, recv-connects}
use rust_mqtt_sn.Dispatch.{ingress}
use rust_mqtt_sn.Dispatch.Gate.{heard, ingress-refused}
use rust_mqtt_sn.Tests.Data.{topics, conn, timed, broker, broker-IsReady, header}

-- The empty registry.
abbrev unnamed : Topics
unnamed = record {
  topic_ids = [];
  topic_ids_qos = empty_map;
  topic_name_to_ids = [];
  topic_id_counter = 0;
}

unnamed-IsRegistry : IsRegistry unnamed
unnamed-IsRegistry = record {
  one_id = λ name i j hi hj. cc;
  one_name = λ a b i ha hb. cc;
  below = λ name i h. cc;
}

try_insert-IsRegistry_example : IsRegistry ((try_insert_topic_name (97 ∷ []) unnamed).1)
try_insert-IsRegistry_example =
    try_insert-IsRegistry (97 ∷ []) unnamed unnamed-IsRegistry (omega arith)

get-try_insert_example :
    get_topic_id_with_topic_name (97 ∷ []) ((try_insert_topic_name (97 ∷ []) unnamed).1)
    ≡ some ((try_insert_topic_name (97 ∷ []) unnamed).0)
get-try_insert_example = get-try_insert (97 ∷ []) (97 ∷ []) unnamed unnamed-IsRegistry (omega arith)

-- A registry whose counter is at its last value, with the id 0 in use.
abbrev full : Topics
full = record unnamed { topic_name_to_ids = ((122 ∷ []), 0) ∷ []; topic_id_counter = 65535 }

abbrev subscribe : Subscribe
subscribe = record { len = 6; msg_type = 18; flags = 32; msg_id = 4; topic_name = 97 ∷ [] }

receive-subscribes_example :
    ((Subscribing.receive subscribe (header 7 18) broker).0 ≡ ok tt)
    × ((Subscribing.receive subscribe (header 7 18) broker).1.egress
        ≡ (7, suback 32 ((try_insert_topic_name (97 ∷ []) topics).0) 4) ∷ [])
    × (subscription 0 7 ((Subscribing.receive subscribe (header 7 18) broker).1.topics)
        ≡ some (flag_qos_level 32))
unfolding flag_topic_id_type try_insert_topic_name
receive-subscribes_example =
    receive-subscribes subscribe (header 7 18) broker 0 7 broker-IsReady refl

abbrev unsubscribe : Unsubscribe
unsubscribe = record { len = 6; msg_type = 20; flags = 0; msg_id = 4; topic_name = 97 ∷ [] }

receive-unsubscribes_example :
    ((Unsubscribing.receive unsubscribe (header 8 20) broker).0 ≡ ok tt)
    × ((Unsubscribing.receive unsubscribe (header 8 20) broker).1.egress ≡ [])
    × (subscription 0 8 ((Unsubscribing.receive unsubscribe (header 8 20) broker).1.topics) ≡ none)
unfolding flag_topic_id_type get_topic_id_with_topic_name
receive-unsubscribes_example = receive-unsubscribes unsubscribe (header 8 20) broker 0 0 8 refl refl

leave_known_example :
    ((Leaving.leave (header 7 24) broker).0 ≡ ok tt)
    × ((Leaving.leave (header 7 24) broker).1.conn_hashmap 7 ≡ none)
    × ((Leaving.leave (header 7 24) broker).1.egress
        ≡ (7, 2 ∷ 24 ∷ []) ∷ wills (some 0) (1 ∷ []) topics)
    × ((Leaving.leave (header 7 24) broker).1.topics ≡ topics)
leave_known_example = leave_known (header 7 24) (conn 7) timed broker broker-IsReady refl refl refl

expire_known_example :
    ((expire 7 broker).0 ≡ ok tt)
    × ((expire 7 broker).1.conn_hashmap 7 ≡ some (record (conn 7) { state = lost }))
    × ((expire 7 broker).1.egress ≡ wills (some 0) (1 ∷ []) topics)
expire_known_example = expire_known 7 (conn 7) broker broker-IsReady refl

-- A CONNECT with a clean session and no will.
abbrev connect : List ℕ
connect = 7 ∷ 4 ∷ 4 ∷ 1 ∷ 0 ∷ 60 ∷ 33 ∷ []

abbrev connect_form : ConnectForm.Connect
connect_form = record {
  len = 7;
  msg_type = 4;
  flags = 4;
  protocol_id = 1;
  duration = 60;
  client_id = 33 ∷ [];
}

recv-connects_example :
    ((Connecting.recv connect 7 (header 9 4) broker).0 ≡ ok tt)
    × ((Connecting.recv connect 7 (header 9 4) broker).1.conn_hashmap 9
        ≡ some (new 9 4 1 60 (33 ∷ [])))
    × ((Connecting.recv connect 7 (header 9 4) broker).1.keep_alive
        ≡ (KeepAlive.schedule 9 60 broker.keep_alive).1)
    × ((Connecting.recv connect 7 (header 9 4) broker).1.egress
        ≡ (9, (if flag_is_will 4 then 2 ∷ 6 ∷ [] else 3 ∷ 5 ∷ 0 ∷ [])) ∷ [])
    × ((Connecting.recv connect 7 (header 9 4) broker).1.client_id_map
        ≡ pairs.insert broker.client_id_map (33 ∷ []) 9)
    × ((Connecting.recv connect 7 (header 9 4) broker).1.topics ≡ broker.topics)
unfolding Connecting.read_message ConnectForm.try_read KeepAlive.schedule
recv-connects_example =
    recv-connects connect 7 6 (header 9 4) connect_form broker broker-IsReady refl refl refl refl
      refl

-- A SUBSCRIBE of an address without a connection.
abbrev stranger : List ℕ
stranger = 3 ∷ 18 ∷ 0 ∷ []

abbrev stranger_header : MsgHeader
stranger_header = record { remote_socket_addr = 9; len = 3; msg_type = 18; header_len = short }

ingress-refused_example : ingress 9 stranger broker ≡ (err no_connection, heard 9 broker)
unfolding try_read check_size
ingress-refused_example = ingress-refused 9 stranger stranger_header broker refl refl

abbrev pubcomp_header : MsgHeader
pubcomp_header = record { remote_socket_addr = 7; len = 4; msg_type = 14; header_len = short }
