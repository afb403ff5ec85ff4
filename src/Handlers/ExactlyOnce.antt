-- ===== src/Handlers/ExactlyOnce.antt =====
-- The end of a QoS 2 exchange: `PubRel::recv` of lib/broker-lib/src/pub_rel.rs with the cache of
-- pub_msg_cache.rs.
use rust_mqtt_sn.Prelude.{
  ℕ, ◌≡◌, refl, subst, ap, ◌∙◌, Option, none, some, [], ◌∷◌, ◌++◌, nat_eq, pair_eq, erase,
  append_nil, eq_refl,
}
use rust_mqtt_sn.Outcome.{ok}
use rust_mqtt_sn.Bisetmap.{BisetMaps}
use rust_mqtt_sn.Wire.Header.{MsgHeader}
use rust_mqtt_sn.Broker.{Broker, PubMsgCache, try_send, uncache_publish, cancel_timer}
use rust_mqtt_sn.Broker.Delivery.{
  IsReady, Sends, Sends-trans, send_msg_to_subscribers-Sends, unchanged-Sends,
}
use rust_mqtt_sn.Broker.Steps.{try_send-Sends, cancel_timer-Sends, uncache_publish-Sends}
use rust_mqtt_sn.Handlers.PubComp
use rust_mqtt_sn.Handlers.PubRel.{release, complete}
use rust_mqtt_sn.Handlers.QosLevels.{released, pubcomp, send_msg_to_subscribers-cache}

erase_same : (m : ℕ × ℕ → Option PubMsgCache) (key : ℕ × ℕ) → erase m key key ≡ none
erase_same m key = rw (eq_refl key) refl

module _ ⦃B : BisetMaps⦄ where
  release-Sends :
      (o : Option PubMsgCache) (b : Broker)
      → IsReady b
      → ((release o b).0 ≡ ok tt) × Sends b ((release o b).1) (released b.conn_hashmap o)
  unfolding release
  release-Sends none b r = (refl, unchanged-Sends b r)
  release-Sends (some c) b r = send_msg_to_subscribers-Sends c.subscriber_vec c.publish b r

  release-cache :
      (o : Option PubMsgCache) (b : Broker) → (release o b).1.pub_msg_cache ≡ b.pub_msg_cache
  unfolding release
  release-cache none b = refl
  release-cache (some c) b = send_msg_to_subscribers-cache c.subscriber_vec c.publish b

  -- What PUBREL makes of the state, up to the end of the timer.
  pub complete-steps :
      (msg_id : ℕ) (h : MsgHeader) (b : Broker)
      → IsReady b
      → Sends b ((complete msg_id h b).1) (
          (h.remote_socket_addr, pubcomp msg_id)
          ∷ released b.conn_hashmap (b.pub_msg_cache (h.remote_socket_addr, msg_id)))
        × ((complete msg_id h b).1.pub_msg_cache
            ≡ erase b.pub_msg_cache (h.remote_socket_addr, msg_id))
  unfolding complete PubComp.send uncache_publish
  complete-steps msg_id h b r =
      let key : ℕ × ℕ = (h.remote_socket_addr, msg_id) in
      let (e, s, c) = try_send-Sends h.remote_socket_addr (pubcomp msg_id) b r in
      let b1 = (try_send h.remote_socket_addr (pubcomp msg_id) b).1 in
      let s1 = uncache_publish-Sends key b1 s.ready in
      let b2 = (uncache_publish key b1).1 in
      let held = b1.pub_msg_cache key in
      let (e3, s2) = release-Sends held b2 s1.ready in
      let b3 = (release held b2).1 in
      let s3 = cancel_timer-Sends h.remote_socket_addr 16 0 msg_id b3 s2.ready in
      let same : (released b2.conn_hashmap held ++ [])
          ≡ released b.conn_hashmap (b.pub_msg_cache key) =
        append_nil (released b2.conn_hashmap held)
        ∙ ap (λ cs. released cs held) s.same_conns
        ∙ ap (λ m. released b.conn_hashmap (m key)) c in
      let b4 = (cancel_timer h.remote_socket_addr 16 0 msg_id b3).1 in
      rw (e, e3)
        (
          subst (λ l. Sends b b4 ((h.remote_socket_addr, pubcomp msg_id) ∷ l)) same
              (Sends-trans s (Sends-trans s1 (Sends-trans s2 s3))),
          release-cache held b2 ∙ ap (λ m. erase m key) c,
        )

  -- In a ready broker, PUBREL is answered by PUBCOMP, and then the publication that was kept under its message id, if
  -- there is one, is sent to the active ones of the subscribers that it was kept with.
  pub complete-Sends :
      (msg_id : ℕ) (h : MsgHeader) (b : Broker)
      → IsReady b
      → Sends b ((complete msg_id h b).1) (
          (h.remote_socket_addr, pubcomp msg_id)
          ∷ released b.conn_hashmap (b.pub_msg_cache (h.remote_socket_addr, msg_id)))
  complete-Sends msg_id h b r = (complete-steps msg_id h b r).0

  -- If PUBREL comes to a ready broker, a second PUBREL with the same message id sends PUBCOMP again and no publication.
  pub complete-twice :
      (msg_id : ℕ) (h : MsgHeader) (b : Broker)
      → IsReady b
      → Sends
          ((complete msg_id h b).1)
          ((complete msg_id h ((complete msg_id h b).1)).1)
          ((h.remote_socket_addr, pubcomp msg_id) ∷ [])
  complete-twice msg_id h b r =
      let key : ℕ × ℕ = (h.remote_socket_addr, msg_id) in
      let (s, c) = complete-steps msg_id h b r in
      let b1 = (complete msg_id h b).1 in
      let gone : b1.pub_msg_cache key ≡ none = ap (λ m. m key) c ∙ erase_same b.pub_msg_cache key in
      subst
        (λ o.
          Sends b1 ((complete msg_id h b1).1)
            ((h.remote_socket_addr, pubcomp msg_id) ∷ released b1.conn_hashmap o))
        gone ((complete-steps msg_id h b1 s.ready).0)
