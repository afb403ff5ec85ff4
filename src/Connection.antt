-- ===== src/Connection.antt =====
-- A connection and its state: the types of lib/broker-lib/src/connection.rs.
use rust_mqtt_sn.Prelude.{ℕ, List, [], Option, none}

pub data StateEnum2 : Type 0 where
  active asleep awake disconnected lost : StateEnum2

-- Texts and byte strings are lists of octets, and an address is the number that names it.
pub record Connection : Type 0 where
  pub socket_addr : ℕ
  pub flags : ℕ
  pub protocol_id : ℕ
  pub duration : ℕ
  pub client_id : List ℕ
  pub state : StateEnum2
  pub will_topic_id : Option ℕ
  pub will_topic : List ℕ
  pub will_message : List ℕ

-- `Connection::new`
unfoldable pub new : ℕ → ℕ → ℕ → ℕ → List ℕ → Connection
new socket_addr flags protocol_id duration client_id = record {
  socket_addr = socket_addr;
  flags = flags;
  protocol_id = protocol_id;
  duration = duration;
  client_id = client_id;
  state = active;
  will_topic_id = none;
  will_topic = [];
  will_message = [];
}
