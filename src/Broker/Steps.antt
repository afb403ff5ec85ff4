-- ===== src/Broker/Steps.antt =====
-- The small actions of the handlers as steps of the broker: a message that is sent, a timer that is
-- started or stopped, and the caches.
use rust_mqtt_sn.Prelude.{ℕ, ◌≡◌, refl, List, [], ◌∷◌, ◌++◌, arith, nat_eq, pair_eq}
use rust_mqtt_sn.Outcome.{ok}
use rust_mqtt_sn.Bisetmap.{BisetMaps}
use rust_mqtt_sn.Retransmit
use rust_mqtt_sn.Retransmit.{RetransmitHeader}
use rust_mqtt_sn.Broker.{
  Broker, try_send, schedule_timer, cancel_timer, uncache_publish, Retain, retain,
}
use rust_mqtt_sn.Broker.Delivery.{IsReady, Sends, keep-IsReady, quiet-Sends}

module _ ⦃B : BisetMaps⦄ where
  try_send_ready :
      (addr : ℕ) (bytes : List ℕ) (b : Broker)
      → IsReady b
      → try_send addr bytes b ≡ (ok tt, record b { egress = b.egress ++ ((addr, bytes) ∷ []) })
  unfolding try_send
  try_send_ready addr bytes b r = ground (arith, r.opened)

  pub try_send-Sends :
      (addr : ℕ) (bytes : List ℕ) (b : Broker)
      → IsReady b
      → ((try_send addr bytes b).0 ≡ ok tt)
        × Sends b ((try_send addr bytes b).1) ((addr, bytes) ∷ [])
        × ((try_send addr bytes b).1.pub_msg_cache ≡ b.pub_msg_cache)
  try_send-Sends addr bytes b r = rw (try_send_ready addr bytes b r) (
    refl,
    record {
      ready = keep-IsReady b _ r refl refl;
      same_conns = refl;
      same_topics = refl;
      egress_after = refl;
    },
    refl,
  )

  -- A step that changes the retransmission wheel, and not its locks.
  wheel-Sends :
      (b : Broker) (w : Retransmit.Wheel)
      → IsReady b
      → w.locks ≡ b.retransmit.locks
      → Sends b (record b { retransmit = w }) []
  wheel-Sends b w r e = quiet-Sends b (record b { retransmit = w }) r refl e refl refl refl

  schedule-locks :
      (h : RetransmitHeader) (seconds : ℕ) (bytes : List ℕ) (w : Retransmit.Wheel)
      → (Retransmit.schedule_timer h seconds bytes w).1.locks ≡ w.locks
  unfolding Retransmit.schedule_timer
  schedule-locks h seconds bytes w = ground arith

  cancel-locks :
      (h : RetransmitHeader) (w : Retransmit.Wheel)
      → (Retransmit.cancel_timer h w).1.locks ≡ w.locks
  unfolding Retransmit.cancel_timer
  cancel-locks h w = ground arith

  schedule-ok :
      (h : RetransmitHeader) (seconds : ℕ) (bytes : List ℕ) (b : Broker)
      → IsReady b
      → (Retransmit.schedule_timer h seconds bytes b.retransmit).0 ≡ ok tt
  unfolding Retransmit.schedule_timer
  schedule-ok h seconds bytes b r = ground (arith, r.map_free, r.slots_free, r.slot_free)

  pub schedule_timer-Sends :
      (addr msg_type topic_id msg_id seconds : ℕ) (bytes : List ℕ) (b : Broker)
      → IsReady b
      → ((schedule_timer addr msg_type topic_id msg_id seconds bytes b).0 ≡ ok tt)
        × Sends b ((schedule_timer addr msg_type topic_id msg_id seconds bytes b).1) []
  schedule_timer-Sends addr msg_type topic_id msg_id seconds bytes b r =
      let h : RetransmitHeader = record {
        addr = addr;
        msg_type = msg_type;
        topic_id = topic_id;
        msg_id = msg_id;
      } in
      (
        schedule-ok h seconds bytes b r,
        wheel-Sends b ((Retransmit.schedule_timer h seconds bytes b.retransmit).1) r
            (schedule-locks h seconds bytes b.retransmit),
      )

  pub cancel_timer-Sends :
      (addr msg_type topic_id msg_id : ℕ) (b : Broker)
      → IsReady b
      → Sends b ((cancel_timer addr msg_type topic_id msg_id b).1) []
  cancel_timer-Sends addr msg_type topic_id msg_id b r =
      let h : RetransmitHeader = record {
        addr = addr;
        msg_type = msg_type;
        topic_id = topic_id;
        msg_id = msg_id;
      } in
      wheel-Sends b ((Retransmit.cancel_timer h b.retransmit).1) r (cancel-locks h b.retransmit)

  pub uncache_publish-Sends :
      (key : ℕ × ℕ) (b : Broker) → IsReady b → Sends b ((uncache_publish key b).1) []
  unfolding uncache_publish
  uncache_publish-Sends key b r = quiet-Sends b _ r refl refl refl refl refl

  pub retain-Sends : (m : Retain) (b : Broker) → IsReady b → Sends b ((retain m b).1) []
  unfolding retain
  retain-Sends m b r = quiet-Sends b _ r refl refl refl refl refl
