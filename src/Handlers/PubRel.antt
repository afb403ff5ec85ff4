-- ===== src/Handlers/PubRel.antt =====
-- PUBREL: lib/broker-lib/src/pub_rel.rs.
use rust_mqtt_sn.Prelude.{ℕ, Option, none, some, List, [], ◌∷◌, ◌==◌, nat_eq, if◌then◌else◌}
use rust_mqtt_sn.Prelude.Bytes.{high, low, be16}
use rust_mqtt_sn.Outcome.{wrong_length}
use rust_mqtt_sn.Exec.{Exec, pure, raise, lift, ◌>>=◌, ◌>>◌}
use rust_mqtt_sn.Bisetmap.{BisetMaps}
use rust_mqtt_sn.Wire.Consts.{msg_type_pubrel, msg_len_pubrel}
use rust_mqtt_sn.Wire.Reader.{index}
use rust_mqtt_sn.Wire.Header.{MsgHeader}
use rust_mqtt_sn.Broker.{Broker, try_send, cancel_timer, PubMsgCache, uncache_publish}
use rust_mqtt_sn.Handlers.PubComp
use rust_mqtt_sn.Broker.Sending.{send_msg_to_subscribers}

module _ ⦃B : BisetMaps⦄ where
  unfoldable pub send : ℕ → MsgHeader → Exec Broker (Unit {0})
  send msg_id header =
      try_send header.remote_socket_addr
        (msg_len_pubrel ∷ msg_type_pubrel ∷ high msg_id ∷ low msg_id ∷ [])

  -- What the cache held for a message id goes to the subscribers it was kept with.
  unfoldable pub release : Option PubMsgCache → Exec Broker (Unit {0})
  release none = pure tt
  release (some cache) = send_msg_to_subscribers cache.subscriber_vec cache.publish

  -- The exchange of one message id: PUBCOMP, the publication, and the end of the timer.
  unfoldable pub complete : ℕ → MsgHeader → Exec Broker (Unit {0})
  unfolding release
  complete msg_id header = do
    PubComp.send msg_id header
    cached ← uncache_publish (header.remote_socket_addr, msg_id)
    release cached
    cancel_timer header.remote_socket_addr msg_type_pubrel 0 msg_id

  unfoldable pub recv : List ℕ → ℕ → MsgHeader → Exec Broker (Unit {0})
  unfolding complete
  recv buf size header = do
    len ← lift (index buf 0)
    if len == msg_len_pubrel
        then (do
          msg_type ← lift (index buf 1)
          if msg_type == msg_type_pubrel
              then (do l ← lift (index buf 3); h ← lift (index buf 2); complete (be16 h l) header)
              else raise wrong_length)
        else raise wrong_length
