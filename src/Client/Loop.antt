-- ===== src/Client/Loop.antt =====
-- The client at work: `MqttSnClient` of lib/client-lib/src/ClientLib.rs and the threads of
-- `RetransTimeWheel` of TimingWheel2.rs. `recv_from` writes a datagram over the beginning of a buffer
-- of 1500 octets, cuts off what does not fit, and leaves the rest of the buffer as it was.
pub mod Stops
use rust_mqtt_sn.Prelude.{
  ℕ, ◌+◌, Bool, true, false, Option, none, some, List, [], ◌∷◌, ◌++◌, length, take, drop, ◌==◌,
  nat_eq, if◌then◌else◌, ◌≡◌, arith,
}
use rust_mqtt_sn.Outcome.{Outcome, ok, err, panic, unwrap}
use rust_mqtt_sn.Exec.{Exec, pure, lift, gets, modify, ◌>>=◌, ◌>>◌}
use rust_mqtt_sn.Retransmit.{RetransmitHeader, header_eq}
use rust_mqtt_sn.Wire.Flags.{topic_id_type_normal, topic_id_type_pre_defined}
use rust_mqtt_sn.Client.Decimal.{decimal}
use rust_mqtt_sn.Wire.Reader.{index}
use rust_mqtt_sn.Client.{Client, dropping}
use rust_mqtt_sn.Client.Consts.{
  msg_type_connect, msg_type_connack, msg_type_publish, msg_type_puback, msg_type_suback,
  msg_type_subscribe, msg_type_pubrec, msg_type_pubcomp,
}
use rust_mqtt_sn.Client.StateMachine.{transition, state_disconnect}
use rust_mqtt_sn.Client.TimingWheel
use rust_mqtt_sn.Client.TimingWheel.{Wheel, Turn, done}
use rust_mqtt_sn.Client.Handlers.ConnAck
use rust_mqtt_sn.Client.Handlers.Connect
use rust_mqtt_sn.Client.Handlers.PubAck
use rust_mqtt_sn.Client.Handlers.PubComp
use rust_mqtt_sn.Client.Handlers.PubRec
use rust_mqtt_sn.Client.Handlers.Publish
use rust_mqtt_sn.Client.Handlers.SubAck
use rust_mqtt_sn.Client.Handlers.Subscribe

-- The state that follows on a message; `unwrap` panics if the table has none.
unfoldable pub advance : ℕ → Exec Client (Unit {0})
advance msg_type = do
  cur_state ← gets (λ c. c.state)
  next ← lift (transition cur_state msg_type)
  state ← lift (unwrap next)
  modify (λ c. record c { state = state })

-- An `Err` of ConnAck::rx is only logged.
abbrev pub on_connack_result : Outcome (Unit {0}) → Exec Client (Unit {0})
on_connack_result (ok a) = advance msg_type_connack
on_connack_result (err e) = pure tt
on_connack_result panic = lift panic

unfoldable pub on_connack : List ℕ → ℕ → ℕ → Exec Client (Unit {0})
unfolding advance
on_connack buf size addr c = let (r, c') = ConnAck.rx buf size addr c in on_connack_result r c'

-- The tests of `rx_loop` on the message type, in their order. Any other type is ignored.
unfoldable pub dispatch : ℕ → List ℕ → ℕ → ℕ → Exec Client (Unit {0})
unfolding on_connack
dispatch msg_type buf size addr =
    if msg_type == msg_type_publish
    then dropping (Publish.rx buf size addr)
    else (if msg_type == msg_type_puback
        then dropping (PubAck.rx buf size addr)
        else (if msg_type == msg_type_suback
            then dropping (SubAck.rx buf size addr)
            else (if msg_type == msg_type_subscribe
                then dropping (Subscribe.rx buf size addr)
                else (if msg_type == msg_type_pubrec
                    then dropping (PubRec.rx buf size addr)
                    else (if msg_type == msg_type_pubcomp
                        then dropping (PubComp.rx buf size addr)
                        else (if msg_type == msg_type_connack
                            then on_connack buf size addr
                            else pure tt))))))

-- `[0; 1500]`
abbrev pub buffer_size : ℕ
buffer_size = 1500

-- `recv_from`: the buffer afterwards, and the size that it returns.
abbrev pub received : List ℕ → List ℕ
received datagram = take buffer_size datagram

abbrev pub fill : List ℕ → List ℕ → List ℕ
fill datagram buf = received datagram ++ drop (length (received datagram)) buf

-- One round of `rx_loop`, on the buffer of the rounds before.
unfoldable pub round : List ℕ → ℕ → List ℕ → Exec Client (Unit {0})
unfolding dispatch
round datagram addr buf =
    let buf' = fill datagram buf in
    lift (index buf' 1) >>= λ msg_type. dispatch msg_type buf' (length (received datagram)) addr

-- `connect` up to its loop.
unfoldable pub begin : List ℕ → ℕ → Exec Client (Unit {0})
unfolding advance
begin client_id addr = Connect.tx client_id 5 addr >> advance msg_type_connect

-- `subscribe` and `publish` are called on a clone with the address that the client was made with.
unfoldable pub subscribe : List ℕ → ℕ → ℕ → ℕ → ℕ → Exec Client (Unit {0})
subscribe topic msg_id qos retain addr =
    Subscribe.tx topic msg_id qos retain topic_id_type_normal addr

-- The topic id is sent as a decimal number.
unfoldable pub subscribe_topic_id : ℕ → ℕ → ℕ → ℕ → ℕ → Exec Client (Unit {0})
subscribe_topic_id topic_id msg_id qos retain addr =
    Subscribe.tx (decimal topic_id) msg_id qos retain topic_id_type_pre_defined addr

unfoldable pub publish : ℕ → ℕ → ℕ → ℕ → List ℕ → ℕ → Exec Client (Unit {0})
publish topic_id msg_id qos retain payload addr = Publish.tx topic_id msg_id qos retain payload addr
