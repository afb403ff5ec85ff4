-- ===== src/Isolation.antt =====
-- One client's messages and the connections of the others: the handlers change `CONN_HASHMAP` at
-- the address of the sender only.
pub mod Messages
pub mod Datagrams
use rust_mqtt_sn.Prelude.{
  ℕ, ◌≡◌, ◌≢◌, refl, ◌∙◌, Bool, true, false, Option, none, some, List, [], ◌∷◌, ◌==◌, nat_eq, put,
  erase, arith, if◌then◌else◌, get_elem?, Option-cases, inl, inr,
}
use rust_mqtt_sn.Outcome.{Outcome, ok, err, panic, unwrap}
use rust_mqtt_sn.Exec.{Exec, attempt, lift, ◌>>=◌, ◌>>◌}
use rust_mqtt_sn.Exec.Keeps.{Keeps, keeps_rules, Keeps-bind, Keeps-then, Keeps-lift, Keeps-attempt}
use rust_mqtt_sn.Bisetmap.{BisetMaps}
use rust_mqtt_sn.Connection.{Connection, StateEnum2, active, asleep, awake, disconnected, lost}
use rust_mqtt_sn.KeepAlive
use rust_mqtt_sn.Retransmit
use rust_mqtt_sn.Topics.{Topics, Subscriber, remove_qos, subscribe_with_topic_id}
use rust_mqtt_sn.Wire.Header.{MsgHeader}
use rust_mqtt_sn.Wire.Messages.Publish.{Publish}
use rust_mqtt_sn.Broker.{
  Broker, on_topics, set_topics, try_topics, on_keep_alive, on_retransmit, schedule_timer,
  cancel_timer, try_send, cache_publish, uncache_publish, cache_asleep, retain, PubMsgCache, Retain,
}
use rust_mqtt_sn.Broker.Clients.{
  set_connection, update_state, remove, update_will_topic, update_will_msg, delete_will_topic_id,
  get_state, publish_to, publish_will_of, forget_each, reconnect, move_each, will_of, migrate,
  insert_new, try_insert, WillData,
}
use rust_mqtt_sn.Broker.Sending.{
  send, publish_header, send_in, send_known, send_to, send_msg_to_subscribers, send_will,
}

-- A connection of another address is the one it was.
module _ ⦃B : BisetMaps⦄ (addr other : ℕ) (ne : other ≢ addr) (conn : Option Connection) where
  abbrev pub Same : Broker → Type 0
  Same b = b.conn_hashmap other ≡ conn

  pub set_connection-Same : (f : Connection → Connection) → Keeps Same (set_connection addr f)
  set_connection-Same f = record { at = λ b h. ground arith }

  pub remove-Same : Keeps Same (remove addr)
  unfolding remove
  remove-Same = record { at = λ b h. ground arith }

  pub try_send-Same : (to : ℕ) (bytes : List ℕ) → Keeps Same (try_send to bytes)
  unfolding try_send
  try_send-Same to bytes = record { at = λ b h. ground arith }

  pub on_topics-Same : {A : Type 0} (f : Topics → A × Topics) → Keeps Same (on_topics f)
  on_topics-Same f = record { at = λ b h. h }

  pub set_topics-Same : (f : Topics → Topics) → Keeps Same (set_topics f)
  set_topics-Same f = record { at = λ b h. h }

  pub try_topics-Same : {A : Type 0} (f : Topics → Outcome A × Topics) → Keeps Same (try_topics f)
  try_topics-Same f = record { at = λ b h. h }

  pub on_keep_alive-Same :
      (f : KeepAlive.Wheel → Outcome (Unit {0}) × KeepAlive.Wheel) → Keeps Same (on_keep_alive f)
  on_keep_alive-Same f = record { at = λ b h. h }

  pub on_retransmit-Same :
      (f : Retransmit.Wheel → Outcome (Unit {0}) × Retransmit.Wheel) → Keeps Same (on_retransmit f)
  on_retransmit-Same f = record { at = λ b h. h }

  pub cache_publish-Same :
      (key : ℕ × ℕ) (value : PubMsgCache) → Keeps Same (cache_publish key value)
  unfolding cache_publish
  cache_publish-Same key value = record { at = λ b h. ground arith }

  pub uncache_publish-Same : (key : ℕ × ℕ) → Keeps Same (uncache_publish key)
  unfolding uncache_publish
  uncache_publish-Same key = record { at = λ b h. h }

  pub cache_asleep-Same : (to : ℕ) (p : Publish) → Keeps Same (cache_asleep to p)
  unfolding cache_asleep
  cache_asleep-Same to p = record { at = λ b h. h }

  pub retain-Same : (r : Retain) → Keeps Same (retain r)
  unfolding retain
  retain-Same r = record { at = λ b h. h }

  pub ruleset same_rules = (
    keeps_rules, set_connection-Same, remove-Same, try_send-Same, on_topics-Same, set_topics-Same,
    try_topics-Same, on_keep_alive-Same, on_retransmit-Same, cache_publish-Same,
    uncache_publish-Same, cache_asleep-Same, retain-Same,
  )

  pub update_will_topic-Same : (topic : List ℕ) → Keeps Same (update_will_topic addr topic)
  unfolding update_will_topic
  update_will_topic-Same topic = search same_rules

  pub update_will_msg-Same : (msg : List ℕ) → Keeps Same (update_will_msg addr msg)
  unfolding update_will_msg
  update_will_msg-Same msg = search same_rules

  pub update_state-Same : (state : StateEnum2) → Keeps Same (update_state addr state)
  unfolding update_state
  update_state-Same state = search same_rules

  pub delete_will_topic_id-Same : Keeps Same (delete_will_topic_id addr)
  unfolding delete_will_topic_id
  delete_will_topic_id-Same = record { at = λ b h. ground arith }

  pub will_of-Same : (old : ℕ) → Keeps Same (will_of old)
  unfolding will_of
  will_of-Same old = record { at = λ b h. ground arith }

  pub get_state-Same : (a : ℕ) → Keeps Same (get_state a)
  unfolding get_state
  get_state-Same a = record { at = λ b h. ground arith }

  pub send-Same :
      (topic_id msg_id qos retain : ℕ) (payload : List ℕ) (to : ℕ)
      → Keeps Same (send topic_id msg_id qos retain payload to)
  unfolding send
  send-Same topic_id msg_id qos retain payload to = search same_rules

  pub send_in-Same :
      (state : StateEnum2) (s : Subscriber) (p : Publish) → Keeps Same (send_in state s p)
  unfolding send_in
  send_in-Same active s p = search (same_rules, send-Same)
  send_in-Same asleep s p = search same_rules
  send_in-Same awake s p = search same_rules
  send_in-Same disconnected s p = search same_rules
  send_in-Same lost s p = search same_rules

  pub send_known-Same :
      (o : Option Connection) (s : Subscriber) (p : Publish) → Keeps Same (send_known o s p)
  unfolding send_known
  send_known-Same none s p = search same_rules
  send_known-Same (some c) s p = send_in-Same c.state s p

  pub send_to-Same : (s : Subscriber) (p : Publish) → Keeps Same (send_to s p)
  unfolding send_to
  send_to-Same s p = record {
    at = λ b h. (send_known-Same (b.conn_hashmap s.socket_addr) s p).at b h;
  }

  pub send_msg_to_subscribers-Same :
      (ss : List Subscriber) (p : Publish) → Keeps Same (send_msg_to_subscribers ss p)
  unfolding send_msg_to_subscribers
  send_msg_to_subscribers-Same [] p = search same_rules
  send_msg_to_subscribers-Same (s ∷ ss) p =
      Keeps-then (send_to s p) (send_msg_to_subscribers ss p) (send_to-Same s p)
        (send_msg_to_subscribers-Same ss p)

  pub send_will-Same :
      (topic_id : ℕ) (msg : List ℕ) (ss : List Subscriber) → Keeps Same (send_will topic_id msg ss)
  unfolding send_will
  send_will-Same topic_id msg [] = search same_rules
  send_will-Same topic_id msg (s ∷ ss) =
      Keeps-then (attempt (send topic_id 0 s.qos 0 msg s.socket_addr)) (send_will topic_id msg ss)
        (Keeps-attempt _ (send-Same topic_id 0 s.qos 0 msg s.socket_addr))
        (send_will-Same topic_id msg ss)

  pub publish_to-Same : (o : Option ℕ) (msg : List ℕ) → Keeps Same (publish_to o msg)
  unfolding publish_to
  publish_to-Same none msg = search same_rules
  publish_to-Same (some id) msg = search (same_rules, send_will-Same)

  pub publish_will_of-Same : (c : Connection) → Keeps Same (publish_will_of c)
  unfolding publish_will_of
  publish_will_of-Same c = publish_to-Same c.will_topic_id c.will_message

  pub forget_each-Same : (a : ℕ) (ids : List ℕ) → Keeps Same (forget_each a ids)
  unfolding forget_each
  forget_each-Same a [] = search same_rules
  forget_each-Same a (id ∷ ids) =
      Keeps-bind (on_topics (remove_qos id a)) (λ _. forget_each a ids) (on_topics-Same _)
        (λ _. forget_each-Same a ids)

  pub move_each-Same : (old a : ℕ) (ids : List ℕ) → Keeps Same (move_each old a ids)
  unfolding move_each
  move_each-Same old a [] = search same_rules
  move_each-Same old a (id ∷ ids) =
      Keeps-bind (on_topics (remove_qos id old)) _ (on_topics-Same _) (λ found.
        Keeps-bind (lift (unwrap found)) _ (Keeps-lift _) (λ qos.
          Keeps-then (set_topics (subscribe_with_topic_id a id qos)) (move_each old a ids)
            (set_topics-Same _) (move_each-Same old a ids)))

  pub reconnect-Same : (flags : ℕ) → Keeps Same (reconnect addr flags)
  unfolding reconnect
  reconnect-Same flags =
      search (same_rules, update_state-Same, forget_each-Same, delete_will_topic_id-Same)

  pub migrate-Same :
      (a flags : ℕ) (olds : List ℕ) (will : WillData) → Keeps Same (migrate a flags olds will)
  unfolding migrate
  migrate-Same a flags [] will = search same_rules
  migrate-Same a flags (old ∷ olds) will =
      search (same_rules, move_each-Same, will_of-Same, migrate-Same a flags olds)

  pub insert_new-Same : (c : Connection) → c.socket_addr ≡ addr → Keeps Same (insert_new c)
  unfolding insert_new
  insert_new-Same c e = record { at = λ b h. ground arith }

  pub try_insert-Same :
      (flags protocol_id duration : ℕ) (client_id : List ℕ)
      → Keeps Same (try_insert addr flags protocol_id duration client_id)
  unfolding try_insert
  try_insert-Same flags protocol_id duration client_id =
      search (same_rules, reconnect-Same, migrate-Same, insert_new-Same)
