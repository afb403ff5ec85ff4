-- ===== src/Tests/Data.antt =====
-- A broker with two connections.
use rust_mqtt_sn.Prelude.{
  ℕ, refl, true, some, List, [], ◌∷◌, ◌==◌, nat_eq, list_eq, pair_eq, put, empty_map, if◌then◌else◌,
}
use rust_mqtt_sn.Bisetmap.Pairs.{pairs}
use rust_mqtt_sn.Connection.{Connection, active}
use rust_mqtt_sn.KeepAlive
use rust_mqtt_sn.KeepAlive.{KeepAliveVal}
use rust_mqtt_sn.Retransmit
use rust_mqtt_sn.Wheel.{Locks}
use rust_mqtt_sn.Topics.{Topics, Subscriber}
use rust_mqtt_sn.Wire.Header.{MsgHeader, short}
use rust_mqtt_sn.Wire.Messages.Publish.{Publish}
use rust_mqtt_sn.Broker.{Broker}
use rust_mqtt_sn.Broker.Delivery.{IsReady}

abbrev pub free : Locks
free = record { map_free = true; slots_free = true; slot_free = true }

-- The name `a` has the id 0; the address 8 takes topic 0, with QoS 0.
abbrev pub topics : Topics
topics = record {
  topic_ids = (0, 8) ∷ [];
  topic_ids_qos = put empty_map (0, 8) 0;
  topic_name_to_ids = ((97 ∷ []), 0) ∷ [];
  topic_id_counter = 1;
}

abbrev pub conn : ℕ → Connection
conn addr = record {
  socket_addr = addr;
  flags = 0;
  protocol_id = 1;
  duration = 60;
  client_id = addr ∷ [];
  state = active;
  will_topic_id = some 0;
  will_topic = 97 ∷ [];
  will_message = 1 ∷ [];
}

abbrev pub timed : KeepAliveVal
timed = record { latest_counter = 0; conn_duration = 600 }

abbrev pub keep_alive : KeepAlive.Wheel
keep_alive = record {
  current_counter = 0;
  slot_vec = λ i. if i == 600 then 7 ∷ [] else [];
  time_wheel_map = put empty_map 7 timed;
  locks = free;
}

abbrev pub retransmit : Retransmit.Wheel
retransmit = Retransmit.init free

-- The addresses 7 and 8 are connected.
abbrev pub broker : Broker
broker = record {
  topics = topics;
  conn_hashmap = put (put empty_map 7 (conn 7)) 8 (conn 8);
  client_id_map = ((7 ∷ []), 7) ∷ ((8 ∷ []), 8) ∷ [];
  keep_alive = keep_alive;
  retransmit = retransmit;
  pub_msg_cache = empty_map;
  asleep_msg_cache = [];
  retain_map = empty_map;
  egress = [];
  egress_open = true;
}

pub broker-IsReady : IsReady broker
broker-IsReady = record { opened = refl; map_free = refl; slots_free = refl; slot_free = refl }

abbrev pub header : ℕ → ℕ → MsgHeader
header addr msg_type = record {
  remote_socket_addr = addr;
  len = 8;
  msg_type = msg_type;
  header_len = short;
}

abbrev pub publish : ℕ → Publish
publish flags = record {
  len = 0;
  msg_type = 12;
  flags = flags;
  topic_id = 0;
  msg_id = 9;
  payload = 5 ∷ [];
}

abbrev pub subs : List Subscriber
subs = record { socket_addr = 8; qos = 0 } ∷ []
