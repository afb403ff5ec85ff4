-- ===== src/Client/Handlers/Effects.antt =====
-- What no handler of the client touches: the state and the timing wheel.
use rust_mqtt_sn.Prelude.{ℕ, ◌≡◌, List, nat_eq}
use rust_mqtt_sn.Exec.{Exec}
use rust_mqtt_sn.Exec.Keeps.{Keeps, keeps_rules}
use rust_mqtt_sn.Retransmit.{RetransmitHeader}
use rust_mqtt_sn.Wire.Messages.Publish.{Publish}
use rust_mqtt_sn.Client.{Client, transmit, schedule, cancel, hand_over, dropping}
use rust_mqtt_sn.Client.TimingWheel.{Wheel}
use rust_mqtt_sn.Client.Handlers.ConnAck
use rust_mqtt_sn.Client.Handlers.Connect
use rust_mqtt_sn.Client.Handlers.PubAck
use rust_mqtt_sn.Client.Handlers.PubComp
use rust_mqtt_sn.Client.Handlers.PubRec
use rust_mqtt_sn.Client.Handlers.PubRel
use rust_mqtt_sn.Client.Handlers.Publish
use rust_mqtt_sn.Client.Handlers.SubAck
use rust_mqtt_sn.Client.Handlers.Subscribe

module _ (state : ℕ) (wheel : Wheel RetransmitHeader (List ℕ)) where
  -- The state and the wheel are these.
  abbrev pub Has : Client → Type 0
  Has c = (c.state ≡ state) × (c.wheel ≡ wheel)

  transmit-Has : (addr : ℕ) (bytes : List ℕ) → Keeps Has (transmit addr bytes)
  unfolding transmit
  transmit-Has addr bytes = record { at = λ c h. h }

  schedule-Has :
      (addr msg_type topic_id msg_id : ℕ) (bytes : List ℕ)
      → Keeps Has (schedule addr msg_type topic_id msg_id bytes)
  unfolding schedule
  schedule-Has addr msg_type topic_id msg_id bytes = record { at = λ c h. h }

  cancel-Has :
      (addr msg_type topic_id msg_id : ℕ) → Keeps Has (cancel addr msg_type topic_id msg_id)
  unfolding cancel
  cancel-Has addr msg_type topic_id msg_id = record { at = λ c h. h }

  hand_over-Has : (publish : Publish) → Keeps Has (hand_over publish)
  unfolding hand_over
  hand_over-Has publish = record { at = λ c h. h }

  pub dropping-Has : {A : Type 0} (m : Exec Client A) → Keeps Has m → Keeps Has (dropping m)
  dropping-Has m k = record { at = k.at }

  ruleset effects = (keeps_rules, transmit-Has, schedule-Has, cancel-Has, hand_over-Has)

  pub ConnAck-Has : (buf : List ℕ) (size addr : ℕ) → Keeps Has (ConnAck.rx buf size addr)
  unfolding ConnAck.rx
  ConnAck-Has buf size addr = search effects

  pub Connect-Has :
      (client_id : List ℕ) (duration addr : ℕ) → Keeps Has (Connect.tx client_id duration addr)
  unfolding Connect.tx
  Connect-Has client_id duration addr = search effects

  pub PubAck-Has : (buf : List ℕ) (size addr : ℕ) → Keeps Has (PubAck.rx buf size addr)
  unfolding PubAck.rx
  PubAck-Has buf size addr = search effects

  pub PubComp-Has : (buf : List ℕ) (size addr : ℕ) → Keeps Has (PubComp.rx buf size addr)
  unfolding PubComp.rx
  PubComp-Has buf size addr = search effects depth 20

  pub PubRec-Has : (buf : List ℕ) (size addr : ℕ) → Keeps Has (PubRec.rx buf size addr)
  unfolding PubRec.rx PubRel.tx
  PubRec-Has buf size addr = search effects depth 20

  pub SubAck-Has : (buf : List ℕ) (size addr : ℕ) → Keeps Has (SubAck.rx buf size addr)
  unfolding SubAck.rx
  SubAck-Has buf size addr = search effects

  pub Subscribe-Has : (buf : List ℕ) (size addr : ℕ) → Keeps Has (Subscribe.rx buf size addr)
  unfolding Subscribe.rx SubAck.tx
  Subscribe-Has buf size addr = search effects

  answer-Has : (publish : Publish) (addr : ℕ) → Keeps Has (Publish.answer publish addr)
  unfolding Publish.answer PubAck.tx PubRec.tx
  answer-Has publish addr = search effects

  pub Publish-Has : (buf : List ℕ) (size addr : ℕ) → Keeps Has (Publish.rx buf size addr)
  unfolding Publish.rx
  Publish-Has buf size addr = search (effects, answer-Has)

  pub publish-Has :
      (topic_id msg_id qos retain : ℕ) (payload : List ℕ) (addr : ℕ)
      → Keeps Has (Publish.tx topic_id msg_id qos retain payload addr)
  unfolding Publish.tx
  publish-Has topic_id msg_id qos retain payload addr = search effects

  pub subscribe-Has :
      (topic : List ℕ) (msg_id qos retain topic_id_type addr : ℕ)
      → Keeps Has (Subscribe.tx topic msg_id qos retain topic_id_type addr)
  unfolding Subscribe.tx
  subscribe-Has topic msg_id qos retain topic_id_type addr = search effects
