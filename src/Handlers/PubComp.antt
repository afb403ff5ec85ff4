-- ===== src/Handlers/PubComp.antt =====
-- PUBCOMP: lib/broker-lib/src/pub_comp.rs.
use rust_mqtt_sn.Prelude.{ℕ, ◌&&◌, List, [], ◌∷◌, ◌==◌, nat_eq, if◌then◌else◌}
use rust_mqtt_sn.Prelude.Bytes.{high, low, be16}
use rust_mqtt_sn.Outcome.{wrong_length}
use rust_mqtt_sn.Exec.{Exec, raise, lift, ◌>>=◌}
use rust_mqtt_sn.Bisetmap.{BisetMaps}
use rust_mqtt_sn.Wire.Consts.{msg_type_pubcomp, msg_len_pubcomp}
use rust_mqtt_sn.Wire.Reader.{index}
use rust_mqtt_sn.Wire.Header.{MsgHeader}
use rust_mqtt_sn.Broker.{Broker, try_send, cancel_timer}

module _ ⦃B : BisetMaps⦄ where
  unfoldable pub send : ℕ → MsgHeader → Exec Broker (Unit {0})
  send msg_id header =
      try_send header.remote_socket_addr
        (msg_len_pubcomp ∷ msg_type_pubcomp ∷ high msg_id ∷ low msg_id ∷ [])

  unfoldable pub recv : List ℕ → ℕ → MsgHeader → Exec Broker (Unit {0})
  recv buf size header = do
    len ← lift (index buf 0)
    if len == msg_len_pubcomp
        then (do
          msg_type ← lift (index buf 1)
          if msg_type == msg_type_pubcomp && size == msg_len_pubcomp
              then (do
                l ← lift (index buf 3)
                h ← lift (index buf 2)
                cancel_timer header.remote_socket_addr msg_type_pubcomp 0 (be16 h l))
              else raise wrong_length)
        else raise wrong_length
