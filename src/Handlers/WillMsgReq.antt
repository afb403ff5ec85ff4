-- ===== src/Handlers/WillMsgReq.antt =====
-- WILLMSGREQ: lib/broker-lib/src/will_msg_req.rs.
use rust_mqtt_sn.Prelude.{ℕ, List, [], ◌∷◌, ◌==◌, nat_eq, if◌then◌else◌}
use rust_mqtt_sn.Outcome.{wrong_length}
use rust_mqtt_sn.Exec.{Exec, pure, raise, lift, ◌>>=◌}
use rust_mqtt_sn.Bisetmap.{BisetMaps}
use rust_mqtt_sn.Wire.Consts.{msg_type_will_msg_req, msg_len_will_msg_req}
use rust_mqtt_sn.Wire.Reader.{index}
use rust_mqtt_sn.Wire.Header.{MsgHeader}
use rust_mqtt_sn.Broker.{Broker, try_send}

module _ ⦃B : BisetMaps⦄ where
  -- `&&` looks at the first octet only if the size is right.
  unfoldable pub recv : List ℕ → ℕ → MsgHeader → Exec Broker (Unit {0})
  recv buf size header =
      if size == msg_len_will_msg_req
      then (do
        len ← lift (index buf 0)
        if len == msg_len_will_msg_req then pure tt else raise wrong_length)
      else raise wrong_length

  unfoldable pub send : MsgHeader → Exec Broker (Unit {0})
  send header =
      try_send header.remote_socket_addr (msg_len_will_msg_req ∷ msg_type_will_msg_req ∷ [])
