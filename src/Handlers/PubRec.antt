-- ===== src/Handlers/PubRec.antt =====
-- PUBREC: lib/broker-lib/src/pub_rec.rs.
use rust_mqtt_sn.Prelude.{ℕ, List, [], ◌∷◌, ◌==◌, nat_eq, if◌then◌else◌}
use rust_mqtt_sn.Prelude.Bytes.{high, low, be16}
use rust_mqtt_sn.Outcome.{wrong_length}
use rust_mqtt_sn.Exec.{Exec, pure, raise, lift, ◌>>=◌, ◌>>◌}
use rust_mqtt_sn.Bisetmap.{BisetMaps}
use rust_mqtt_sn.Wire.Consts.{msg_type_pubrec, msg_len_pubrec}
use rust_mqtt_sn.Wire.Reader.{index}
use rust_mqtt_sn.Wire.Header.{MsgHeader}
use rust_mqtt_sn.Broker.{Broker, try_send, cancel_timer}

module _ ⦃B : BisetMaps⦄ where
  -- The octets come back for the timer.
  unfoldable pub send : ℕ → MsgHeader → Exec Broker (List ℕ)
  send msg_id header = do
    try_send header.remote_socket_addr
        (msg_len_pubrec ∷ msg_type_pubrec ∷ high msg_id ∷ low msg_id ∷ [])
    pure (msg_len_pubrec ∷ msg_type_pubrec ∷ high msg_id ∷ low msg_id ∷ [])

  -- The message id is read with its low octet first. `&&` looks at the second octet only if the
  -- first one is right.
  unfoldable pub recv : List ℕ → ℕ → MsgHeader → Exec Broker (Unit {0})
  recv buf size header = do
    len ← lift (index buf 0)
    if len == msg_len_pubrec
        then (do
          msg_type ← lift (index buf 1)
          if msg_type == msg_type_pubrec
              then (do
                l ← lift (index buf 2)
                h ← lift (index buf 3)
                cancel_timer header.remote_socket_addr msg_type_pubrec 0 (be16 h l))
              else raise wrong_length)
        else raise wrong_length
