-- ===== src/Client.antt =====
-- The client: lib/client-lib/src. The clones of `MqttSnClient` (ClientLib.rs) share the channels, the
-- state and, through their threads, the timing wheel; each has a remote address of its own, which is
-- an argument of what is called on it. The receivers of the channels live as long as the client, so
-- a send never fails. The structs that client-lib declares with the fields that broker-lib gives
-- them, RetransmitHeader and most of the messages, are those of the modules that model broker-lib.
pub mod Consts
pub mod TimingWheel
pub mod StateMachine
pub mod Messages
pub mod Decimal
pub mod Handlers
pub mod Loop
pub mod Threads
pub mod Acks
pub mod Interop
pub mod TopicIds
use rust_mqtt_sn.Prelude.{ℕ, List, [], ◌∷◌, ◌++◌}
use rust_mqtt_sn.Outcome.{Outcome, ok, err, panic}
use rust_mqtt_sn.Exec.{Exec, modify}
use rust_mqtt_sn.Retransmit.{RetransmitHeader}
use rust_mqtt_sn.Wire.Messages.Publish.{Publish}
use rust_mqtt_sn.Client.TimingWheel.{Wheel}

-- The four channels hold what was sent and not yet received, first message first.
pub record Client : Type 0 where
  pub transmit : List (ℕ × List ℕ)
  pub schedule : List (RetransmitHeader × List ℕ)
  pub cancel : List RetransmitHeader
  pub subscribe : List Publish
  pub state : ℕ
  pub wheel : Wheel RetransmitHeader (List ℕ)

abbrev pub key : ℕ → ℕ → ℕ → ℕ → RetransmitHeader
key addr msg_type topic_id msg_id = record {
  addr = addr;
  msg_type = msg_type;
  topic_id = topic_id;
  msg_id = msg_id;
}

-- `client.transmit_tx.send`, and the other three.
unfoldable pub transmit : ℕ → List ℕ → Exec Client (Unit {0})
transmit addr bytes c = (ok tt, record c { transmit = c.transmit ++ ((addr, bytes) ∷ []) })

unfoldable pub schedule : ℕ → ℕ → ℕ → ℕ → List ℕ → Exec Client (Unit {0})
schedule addr msg_type topic_id msg_id bytes c =
    (ok tt, record c { schedule = c.schedule ++ ((key addr msg_type topic_id msg_id, bytes) ∷ []) })

unfoldable pub cancel : ℕ → ℕ → ℕ → ℕ → Exec Client (Unit {0})
cancel addr msg_type topic_id msg_id c =
    (ok tt, record c { cancel = c.cancel ++ (key addr msg_type topic_id msg_id ∷ []) })

unfoldable pub hand_over : Publish → Exec Client (Unit {0})
hand_over publish c = (ok tt, record c { subscribe = c.subscribe ++ (publish ∷ []) })

abbrev pub forget_result {ℓ} : {A : Type ℓ} → Outcome A → Outcome (Unit {0})
forget_result (ok a) = ok tt
forget_result (err e) = ok tt
forget_result panic = panic

-- A call whose result is dropped: an `Err` is lost, and a panic is not.
abbrev pub dropping : {A : Type 0} → Exec Client A → Exec Client (Unit {0})
dropping m c = let (r, c') = m c in (forget_result r, c')
