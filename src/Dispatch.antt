-- ===== src/Dispatch.antt =====
-- One datagram through the broker: the loop of `handle_ingress` of lib/broker-lib/src/broker_lib.rs.
pub mod Gate
use rust_mqtt_sn.Prelude.{
  ℕ, Bool, true, false, ◌&&◌, not, Option, none, some, List, [], ◌∷◌, length, get_elem?, ◌==◌,
  nat_eq, if◌then◌else◌,
}
use rust_mqtt_sn.Outcome.{Outcome, reserved, connect_twice, no_connection, invalid_type}
use rust_mqtt_sn.Exec.{Exec, raise, lift, gets, attempt, ◌>>=◌, ◌>>◌}
use rust_mqtt_sn.Bisetmap.{BisetMaps}
use rust_mqtt_sn.KeepAlive
use rust_mqtt_sn.Wire.Consts.{msg_type_connect}
use rust_mqtt_sn.Wire.Header.{MsgHeader, try_read}
use rust_mqtt_sn.Broker.{Broker, on_keep_alive}
use rust_mqtt_sn.Broker.Clients.{contains_key}
use rust_mqtt_sn.Handlers.Connect
use rust_mqtt_sn.Handlers.ConnAck
use rust_mqtt_sn.Handlers.Disconnect
use rust_mqtt_sn.Handlers.Discovery.{recv_advertise, recv_gw_info}
use rust_mqtt_sn.Handlers.PingReq
use rust_mqtt_sn.Handlers.PingResp
use rust_mqtt_sn.Handlers.PubAck
use rust_mqtt_sn.Handlers.PubComp
use rust_mqtt_sn.Handlers.PubRec
use rust_mqtt_sn.Handlers.PubRel
use rust_mqtt_sn.Handlers.Publish
use rust_mqtt_sn.Handlers.RegAck
use rust_mqtt_sn.Handlers.Register
use rust_mqtt_sn.Handlers.SubAck
use rust_mqtt_sn.Handlers.Subscribe
use rust_mqtt_sn.Handlers.UnsubAck
use rust_mqtt_sn.Handlers.Unsubscribe
use rust_mqtt_sn.Handlers.WillMsg
use rust_mqtt_sn.Handlers.WillMsgReq
use rust_mqtt_sn.Handlers.WillMsgResp
use rust_mqtt_sn.Handlers.WillMsgUpd
use rust_mqtt_sn.Handlers.WillTopic
use rust_mqtt_sn.Handlers.WillTopicReq
use rust_mqtt_sn.Handlers.WillTopicResp
use rust_mqtt_sn.Handlers.WillTopicUpd

module _ ⦃B : BisetMaps⦄ where
  abbrev pub Handler : Type 0
  Handler = List ℕ → ℕ → MsgHeader → Exec Broker (Unit {0})

  -- `reserved`
  abbrev pub recv_reserved : Handler
  recv_reserved buf size header = raise reserved

  -- The table of the handlers, by message type.
  unfoldable pub functions : List Handler
  functions =
      recv_advertise ∷ recv_gw_info ∷ recv_gw_info ∷ recv_reserved ∷ Connect.recv ∷ ConnAck.recv
      ∷ WillTopicReq.recv ∷ WillTopic.recv ∷ WillMsgReq.recv ∷ WillMsg.recv ∷ Register.recv
      ∷ RegAck.recv ∷ Publish.recv ∷ PubAck.recv ∷ recv_reserved ∷ PubRec.recv ∷ PubRel.recv
      ∷ recv_reserved ∷ Subscribe.recv ∷ SubAck.recv ∷ Unsubscribe.recv ∷ UnsubAck.recv
      ∷ PingReq.recv ∷ PingResp.recv ∷ Disconnect.recv ∷ recv_reserved ∷ WillTopicUpd.recv
      ∷ WillTopicResp.recv ∷ WillMsgUpd.recv ∷ WillMsgResp.recv ∷ []

  -- The handler of a message type, if the table has one.
  unfoldable pub call : Option Handler → Handler
  call none buf size header = raise invalid_type
  call (some handler) buf size header = handler buf size header

  -- The tests before a handler is called: whether the address has a connection, and whether the
  -- message is a CONNECT.
  unfoldable pub admit : Bool → List ℕ → MsgHeader → Exec Broker (Unit {0})
  admit known buf header =
      let is_connect = header.msg_type == msg_type_connect in
      if known && is_connect
      then raise connect_twice
      else (if not known && not is_connect
          then raise no_connection
          else call (get_elem? functions header.msg_type) buf (length buf) header)

  -- What the loop does with a message whose header was read.
  unfoldable pub dispatch : ℕ → List ℕ → MsgHeader → Exec Broker (Unit {0})
  unfolding admit
  dispatch addr buf header b = admit (contains_key addr b) buf header b

  -- A round of the loop for a datagram. An `Err` is what the loop logs before it goes on, and a
  -- panic ends the task.
  unfoldable pub ingress : ℕ → List ℕ → Exec Broker (Unit {0})
  unfolding dispatch
  ingress addr buf = do
    attempt (on_keep_alive (KeepAlive.reschedule addr))
    header ← lift (try_read buf (length buf) addr)
    dispatch addr buf header
