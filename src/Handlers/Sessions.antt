-- ===== src/Handlers/Sessions.antt =====
-- The beginning and the end of a connection: `Connect::recv` and `Disconnect::recv` of
-- lib/broker-lib/src/connect.rs and disconnect.rs.
use rust_mqtt_sn.Prelude.{
  ℕ, ◌≡◌, refl, ap, ◌∙◌, Bool, true, false, Option, none, some, List, [], ◌∷◌, ◌++◌, arith, nat_eq,
  list_eq, put, erase, eq_refl, append_assoc, if◌then◌else◌, Bool-cases, inl, inr,
}
use rust_mqtt_sn.Outcome.{ok}
use rust_mqtt_sn.Bisetmap.{BisetMaps}
use rust_mqtt_sn.Connection.{Connection, new}
use rust_mqtt_sn.KeepAlive
use rust_mqtt_sn.KeepAlive.{KeepAliveVal}
use rust_mqtt_sn.Wire.Header.{MsgHeader}
use rust_mqtt_sn.Wire.Flags.{flag_is_will}
use rust_mqtt_sn.Wire.Messages.Connect
use rust_mqtt_sn.Wire.Messages.Disconnect
use rust_mqtt_sn.Wire.Messages.ConnAck
use rust_mqtt_sn.Broker.{Broker, try_send}
use rust_mqtt_sn.Broker.Clients.{
  get_state, remove, publish_will_of, try_insert, migrate, insert_new,
}
use rust_mqtt_sn.Broker.Delivery.{IsReady, keep-IsReady}
use rust_mqtt_sn.Broker.Wills.{wills, publish_will_of-Sends}
use rust_mqtt_sn.Handlers.Disconnect as Leaving
use rust_mqtt_sn.Handlers.Connect as Connecting
use rust_mqtt_sn.Handlers.ConnAck as ConnAckOut
use rust_mqtt_sn.Handlers.WillTopicReq

erase_same : (m : ℕ → Option Connection) (a : ℕ) → erase m a a ≡ none
erase_same m a = rw (eq_refl a) refl

put_same : (m : ℕ → Option Connection) (a : ℕ) (c : Connection) → put m a c a ≡ some c
put_same m a c = rw (eq_refl a) refl

module _ ⦃B : BisetMaps⦄ where
  -- The state when the DISCONNECT has been answered.
  abbrev left : MsgHeader → Broker → Broker
  left h b = record b {
    conn_hashmap = erase b.conn_hashmap h.remote_socket_addr;
    client_id_map = B.rev_delete b.client_id_map h.remote_socket_addr;
    keep_alive = (KeepAlive.cancel h.remote_socket_addr b.keep_alive).1;
    egress = b.egress ++ ((h.remote_socket_addr, 2 ∷ 24 ∷ []) ∷ []);
  }

  cancel_known :
      (addr : ℕ) (v : KeepAliveVal) (w : KeepAlive.Wheel)
      → w.time_wheel_map addr ≡ some v
      → w.locks.map_free ≡ true
      → (KeepAlive.cancel addr w).0 ≡ ok tt
  unfolding KeepAlive.cancel
  cancel_known addr v w timed free = ground arith

  leave-left :
      (h : MsgHeader) (c : Connection) (v : KeepAliveVal) (b : Broker)
      → IsReady b
      → b.conn_hashmap h.remote_socket_addr ≡ some c
      → b.keep_alive.time_wheel_map h.remote_socket_addr ≡ some v
      → b.keep_alive.locks.map_free ≡ true
      → Leaving.leave h b
        ≡ (if Leaving.publishes c.state then publish_will_of c (left h b) else (ok tt, left h b))
  unfolding Leaving.leave Leaving.send get_state remove try_send Disconnect.try_write
  leave-left h c v b r known timed free =
      ground (arith, r.opened, cancel_known h.remote_socket_addr v b.keep_alive timed free)

  -- In a ready broker, a DISCONNECT without a duration of a connected client, whose keep-alive timer
  -- runs and whose wheel is not locked, ends the connection, is answered by a DISCONNECT, publishes
  -- the will after that if the client was active, and keeps every subscription.
  pub leave_known :
      (h : MsgHeader) (c : Connection) (v : KeepAliveVal) (b : Broker)
      → IsReady b
      → b.conn_hashmap h.remote_socket_addr ≡ some c
      → b.keep_alive.time_wheel_map h.remote_socket_addr ≡ some v
      → b.keep_alive.locks.map_free ≡ true
      → ((Leaving.leave h b).0 ≡ ok tt)
        × ((Leaving.leave h b).1.conn_hashmap h.remote_socket_addr ≡ none)
        × ((Leaving.leave h b).1.egress
            ≡ b.egress
              ++ ((h.remote_socket_addr, 2 ∷ 24 ∷ [])
                  ∷ (if Leaving.publishes c.state
                      then wills c.will_topic_id c.will_message b.topics
                      else [])))
        × ((Leaving.leave h b).1.topics ≡ b.topics)
  leave_known h c v b r known timed free = elim (Bool-cases (Leaving.publishes c.state)) [
    | inl p ↦
        let (o, s) = publish_will_of-Sends c (left h b) (keep-IsReady b (left h b) r refl refl) in
        rw (leave-left h c v b r known timed free, p)
          (
            o,
            ap (λ m. m h.remote_socket_addr) s.same_conns
                ∙ erase_same b.conn_hashmap h.remote_socket_addr,
            s.egress_after
                ∙ append_assoc b.egress ((h.remote_socket_addr, 2 ∷ 24 ∷ []) ∷ [])
                    (wills c.will_topic_id c.will_message b.topics),
            s.same_topics,
          )
    | inr p ↦
        rw (leave-left h c v b r known timed free, p)
          (refl, erase_same b.conn_hashmap h.remote_socket_addr, refl, refl)
  ]

  try_insert_fresh :
      (addr flags protocol_id duration : ℕ) (client_id : List ℕ) (b : Broker)
      → B.contains b.client_id_map client_id addr ≡ false
      → B.get b.client_id_map client_id ≡ []
      → b.conn_hashmap addr ≡ none
      → try_insert addr flags protocol_id duration client_id b ≡ (
        ok tt,
        record b {
          client_id_map = B.insert b.client_id_map client_id addr;
          conn_hashmap = put b.conn_hashmap addr (new addr flags protocol_id duration client_id);
        },
      )
  unfolding try_insert migrate insert_new new
  try_insert_fresh addr flags protocol_id duration client_id b fresh alone unknown =
      rw (fresh, alone, unknown) refl

  -- The state when the connection is made and its timer runs.
  abbrev entered : MsgHeader → Connect.Connect → Broker → Broker
  entered h m b = record b {
    client_id_map = B.insert b.client_id_map m.client_id h.remote_socket_addr;
    conn_hashmap =
        put b.conn_hashmap h.remote_socket_addr
          (new h.remote_socket_addr m.flags m.protocol_id m.duration m.client_id);
    keep_alive = (KeepAlive.schedule h.remote_socket_addr m.duration b.keep_alive).1;
  }

  greet_open :
      (will : Bool) (h : MsgHeader) (b : Broker)
      → b.egress_open ≡ true
      → (if will then WillTopicReq.send h else ConnAckOut.send h 0) b ≡ (
        ok tt,
        record b {
          egress =
              b.egress
              ++ ((h.remote_socket_addr, (if will then 2 ∷ 6 ∷ [] else 3 ∷ 5 ∷ 0 ∷ [])) ∷ []);
        },
      )
  unfolding WillTopicReq.send ConnAckOut.send ConnAck.try_write try_send
  greet_open true h b open_ = ground arith
  greet_open false h b open_ = ground arith

  -- In a ready broker, a CONNECT that is read as `m`, of a client id that has no address yet, from an
  -- address without a connection, and with a keep-alive that can be scheduled, makes an active
  -- connection without a will, starts the keep-alive timer, and is answered by a WILLTOPICREQ if it
  -- announces a will and by an accepting CONNACK if not. The client id gets the address, and every
  -- subscription is kept, those of the address included, whether the session is clean or not.
  pub recv-connects :
      (buf : List ℕ) (size n : ℕ) (h : MsgHeader) (m : Connect.Connect) (b : Broker)
      → IsReady b
      → Connecting.read_message h.header_len buf size ≡ ok (m, n)
      → B.contains b.client_id_map m.client_id h.remote_socket_addr ≡ false
      → B.get b.client_id_map m.client_id ≡ []
      → b.conn_hashmap h.remote_socket_addr ≡ none
      → (KeepAlive.schedule h.remote_socket_addr m.duration b.keep_alive).0 ≡ ok tt
      → ((Connecting.recv buf size h b).0 ≡ ok tt)
        × ((Connecting.recv buf size h b).1.conn_hashmap h.remote_socket_addr
            ≡ some (new h.remote_socket_addr m.flags m.protocol_id m.duration m.client_id))
        × ((Connecting.recv buf size h b).1.keep_alive
            ≡ (KeepAlive.schedule h.remote_socket_addr m.duration b.keep_alive).1)
        × ((Connecting.recv buf size h b).1.egress
            ≡ b.egress
              ++ ((
                h.remote_socket_addr,
                (if flag_is_will m.flags then 2 ∷ 6 ∷ [] else 3 ∷ 5 ∷ 0 ∷ []),
              )
                  ∷ []))
        × ((Connecting.recv buf size h b).1.client_id_map
            ≡ B.insert b.client_id_map m.client_id h.remote_socket_addr)
        × ((Connecting.recv buf size h b).1.topics ≡ b.topics)
  unfolding Connecting.recv
  recv-connects buf size n h m b r read fresh alone unknown timed =
      rw
        (
          read,
          try_insert_fresh h.remote_socket_addr m.flags m.protocol_id m.duration m.client_id b fresh
              alone unknown,
          timed,
          greet_open (flag_is_will m.flags) h (entered h m b) r.opened,
        )
        (refl, put_same b.conn_hashmap h.remote_socket_addr _, refl, refl, refl, refl)
