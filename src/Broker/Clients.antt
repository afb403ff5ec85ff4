-- ===== src/Broker/Clients.antt =====
-- The table of connections: the functions of `Connection` over `CONN_HASHMAP` in
-- lib/broker-lib/src/connection.rs, with `CLIENT_ID_MAP` of client_id.rs.
use rust_mqtt_sn.Prelude.{
  ℕ, Bool, true, false, Option, none, some, List, [], ◌∷◌, put, erase, nat_eq, list_eq,
  if◌then◌else◌,
}
use rust_mqtt_sn.Outcome.{ok, err, not_found, already_exists, unwrap}
use rust_mqtt_sn.Exec.{Exec, pure, lift, gets, ◌>>=◌, ◌>>◌}
use rust_mqtt_sn.Bisetmap.{BisetMaps}
use rust_mqtt_sn.Connection.{Connection, StateEnum2, active}
use rust_mqtt_sn.Topics.{
  delete_topic_ids_with_socket_addr, remove_qos, delete_topic_id, subscribe_with_topic_id,
  try_insert_topic_name, get_subscribers_with_topic_id,
}
use rust_mqtt_sn.Wire.Flags.{flag_is_clean_session, flag_is_will}
use rust_mqtt_sn.Broker.{Broker, on_topics, set_topics}
use rust_mqtt_sn.Broker.Sending.{send_will}

-- The data of a will: the topic id, the topic and the message.
abbrev pub WillData : Type 0
WillData = Option ℕ × List ℕ × List ℕ

module _ ⦃B : BisetMaps⦄ where
  abbrev pub contains_key : ℕ → Broker → Bool
  contains_key addr b = elim (b.conn_hashmap addr) [ none ↦ false | some c ↦ true ]

  unfoldable pub get_state : ℕ → Exec Broker StateEnum2
  get_state addr b = elim (b.conn_hashmap addr) [
    | none ↦ (err not_found, b)
    | some c ↦ (ok c.state, b)
  ]

  -- `get_mut`, and the connection that is left.
  abbrev pub set_connection : ℕ → (Connection → Connection) → Exec Broker (Unit {0})
  set_connection addr f b = elim (b.conn_hashmap addr) [
    | none ↦ (err not_found, b)
    | some c ↦ (ok tt, record b { conn_hashmap = put b.conn_hashmap addr (f c) })
  ]

  unfoldable pub update_state : ℕ → StateEnum2 → Exec Broker (Unit {0})
  update_state addr state = set_connection addr (λ c. record c { state = state })

  -- `Connection::remove`
  unfoldable pub remove : ℕ → Exec Broker Connection
  remove addr b = elim (b.conn_hashmap addr) [
    | none ↦ (err not_found, b)
    | some c ↦ (ok c, record b { conn_hashmap = erase b.conn_hashmap addr })
  ]

  -- The topic is set first, and its id is looked up or given out after that.
  unfoldable pub update_will_topic : ℕ → List ℕ → Exec Broker (Unit {0})
  update_will_topic addr topic = do
    set_connection addr (λ c. record c { will_topic = topic })
    topic_id ← on_topics (try_insert_topic_name topic)
    set_connection addr (λ c. record c { will_topic_id = some topic_id })

  unfoldable pub update_will_msg : ℕ → List ℕ → Exec Broker (Unit {0})
  update_will_msg addr message = set_connection addr (λ c. record c { will_message = message })

  -- A connection without a will makes the `unwrap` panic.
  unfoldable pub delete_will_topic_id : ℕ → Exec Broker ℕ
  delete_will_topic_id addr b = elim (b.conn_hashmap addr) [
    | none ↦ (err not_found, b)
    | some c ↦ (
      unwrap c.will_topic_id,
      record b { conn_hashmap = put b.conn_hashmap addr (record c { will_topic_id = none }) },
    )
  ]

  -- `if let Some(topic_id) = conn.will_topic_id`: the will goes to the topic's subscribers.
  unfoldable pub publish_to : Option ℕ → List ℕ → Exec Broker (Unit {0})
  publish_to none msg = pure tt
  publish_to (some topic_id) msg = do
    subs ← gets (λ b. get_subscribers_with_topic_id topic_id b.topics)
    send_will topic_id msg subs

  unfoldable pub publish_will_of : Connection → Exec Broker (Unit {0})
  unfolding publish_to
  publish_will_of c = publish_to c.will_topic_id c.will_message

  unfoldable pub publish_will : ℕ → Exec Broker (Unit {0})
  unfolding publish_will_of
  publish_will addr b = elim (b.conn_hashmap addr) [
    | none ↦ (err not_found, b)
    | some c ↦ publish_will_of c b
  ]

  -- The loop over the topic ids of a clean session.
  unfoldable pub forget_each : ℕ → List ℕ → Exec Broker (Unit {0})
  forget_each addr [] = pure tt
  forget_each addr (id ∷ ids) = do _ ← on_topics (remove_qos id addr); forget_each addr ids

  -- A client that connects again from the same address.
  unfoldable pub reconnect : ℕ → ℕ → Exec Broker (Unit {0})
  unfolding forget_each
  reconnect addr flags = do
    update_state addr active
    if flag_is_clean_session flags
        then (do ids ← on_topics (delete_topic_ids_with_socket_addr addr); forget_each addr ids)
        else pure tt
    if flag_is_will flags
        then (do topic_id ← delete_will_topic_id addr; set_topics (delete_topic_id topic_id))
        else pure tt

  -- The loop that moves the subscriptions of an old address to the new one.
  unfoldable pub move_each : ℕ → ℕ → List ℕ → Exec Broker (Unit {0})
  move_each old addr [] = pure tt
  move_each old addr (id ∷ ids) = do
    found ← on_topics (remove_qos id old)
    qos ← lift (unwrap found)
    set_topics (subscribe_with_topic_id addr id qos)
    move_each old addr ids

  -- The will data of an old address.
  unfoldable pub will_of : ℕ → Exec Broker WillData
  will_of old b = elim (b.conn_hashmap old) [
    | none ↦ (err not_found, b)
    | some c ↦ (ok (c.will_topic_id, c.will_topic, c.will_message), b)
  ]

  -- The loop over the old addresses of a client id, with the will data found so far.
  unfoldable pub migrate : ℕ → ℕ → List ℕ → WillData → Exec Broker WillData
  unfolding move_each will_of
  migrate addr flags [] will = pure will
  migrate addr flags (old ∷ olds) will = do
    if flag_is_clean_session flags
        then pure tt
        else (do ids ← on_topics (delete_topic_ids_with_socket_addr old); move_each old addr ids)
    found ← if flag_is_will flags then pure will else will_of old
    migrate addr flags olds found

  -- The new connection: its client id is stored before the table is asked for the address.
  unfoldable pub insert_new : Connection → Exec Broker (Unit {0})
  insert_new c b =
      let b' = record b { client_id_map = B.insert b.client_id_map c.client_id c.socket_addr } in
      elim (b.conn_hashmap c.socket_addr) [
        | none ↦ (ok tt, record b' { conn_hashmap = put b.conn_hashmap c.socket_addr c })
        | some old ↦ (err already_exists, b')
      ]

  unfoldable pub try_insert : ℕ → ℕ → ℕ → ℕ → List ℕ → Exec Broker (Unit {0})
  unfolding reconnect migrate insert_new
  try_insert addr flags protocol_id duration client_id = do
    known ← gets (λ b. B.contains b.client_id_map client_id addr)
    if known then reconnect addr flags else (do
      olds ← gets (λ b. B.get b.client_id_map client_id)
      (will_topic_id, will_topic, will_message) ← migrate addr flags olds (none, [], [])
      insert_new (record {
        socket_addr = addr;
        flags = flags;
        protocol_id = protocol_id;
        duration = duration;
        client_id = client_id;
        state = active;
        will_topic_id = will_topic_id;
        will_topic = will_topic;
        will_message = will_message;
      }))
