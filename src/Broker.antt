-- ===== src/Broker.antt =====
-- The state of the broker: the globals that its handlers share, which the files of
-- lib/broker-lib/src keep in `lazy_static` maps, and the two wheels. `egress` is what was handed to
-- `egress_tx` of `MqttSnClient` (broker_lib.rs) so far, first message first.
pub mod Clients
pub mod Moves
pub mod Migration
pub mod Sending
pub mod Delivery
pub mod Steps
pub mod Wills
pub mod Asleep
pub mod PublishForm
use rust_mqtt_sn.Prelude.{
  ℕ, Bool, true, false, ◌&&◌, Option, none, some, List, [], ◌∷◌, ◌++◌, Eq, ◌==◌, nat_eq, list_eq,
  pair_eq, put, erase, if◌then◌else◌, ◌≡◌, ◌↔◌, nat_beq_iff, list_beq_iff, arith,
}
use rust_mqtt_sn.Outcome.{Outcome, ok, err, disconnected, already_exists}
use rust_mqtt_sn.Exec.{Exec}
use rust_mqtt_sn.Bisetmap.{BisetMaps}
use rust_mqtt_sn.Connection.{Connection}
use rust_mqtt_sn.Topics.{Topics, Subscriber}
use rust_mqtt_sn.Wire.Messages.Publish.{Publish}
use rust_mqtt_sn.KeepAlive
use rust_mqtt_sn.Retransmit
use rust_mqtt_sn.Retransmit.{RetransmitHeader}

-- The derived `PartialEq` of `Publish`.
abbrev pub publish_beq : Publish → Publish → Bool
publish_beq p q =
    p.len == q.len
    && p.msg_type == q.msg_type
    && p.flags == q.flags
    && p.topic_id == q.topic_id
    && p.msg_id == q.msg_id
    && p.payload == q.payload

pub publish_beq_iff : (p q : Publish) → (publish_beq p q ≡ true) ↔ (p ≡ q)
publish_beq_iff p q = ground (
  arith,
  nat_beq_iff p.len q.len,
  nat_beq_iff p.msg_type q.msg_type,
  nat_beq_iff p.flags q.flags,
  nat_beq_iff p.topic_id q.topic_id,
  nat_beq_iff p.msg_id q.msg_id,
  list_beq_iff p.payload q.payload,
)

instance abbrev pub publish_eq : Eq Publish
publish_eq = record { test = publish_beq; test_iff = publish_beq_iff }

pub record PubMsgCache : Type 0 where
  pub publish : Publish
  pub subscriber_vec : List Subscriber

pub record Retain : Type 0 where
  pub qos : ℕ
  pub topic_id : ℕ
  pub msg_id : ℕ
  pub payload : List ℕ

module _ ⦃B : BisetMaps⦄ where
  pub record Broker : Type 0 where
    pub topics : Topics
    pub conn_hashmap : ℕ → Option Connection
    pub client_id_map : B.Map (List ℕ) ℕ
    pub keep_alive : KeepAlive.Wheel
    pub retransmit : Retransmit.Wheel
    pub pub_msg_cache : ℕ × ℕ → Option PubMsgCache
    pub asleep_msg_cache : B.Map ℕ Publish
    pub retain_map : ℕ → Option Retain
    pub egress : List (ℕ × List ℕ)
    -- The receiving end of the channel is alive; if it is not, a send fails.
    pub egress_open : Bool

  -- `client.egress_tx.try_send((addr, bytes))` of an unbounded channel
  unfoldable pub try_send : ℕ → List ℕ → Exec Broker (Unit {0})
  try_send addr bytes b =
      if b.egress_open
      then (ok tt, record b { egress = b.egress ++ ((addr, bytes) ∷ []) })
      else (err disconnected, b)

  -- The functions of the parts, as actions on the whole state.
  abbrev pub on_topics : {A : Type 0} → (Topics → A × Topics) → Exec Broker A
  on_topics f b = let (a, t) = f b.topics in (ok a, record b { topics = t })

  abbrev pub set_topics : (Topics → Topics) → Exec Broker (Unit {0})
  set_topics f b = (ok tt, record b { topics = f b.topics })

  abbrev pub try_topics : {A : Type 0} → (Topics → Outcome A × Topics) → Exec Broker A
  try_topics f b = let (r, t) = f b.topics in (r, record b { topics = t })

  abbrev pub on_keep_alive :
      (KeepAlive.Wheel → Outcome (Unit {0}) × KeepAlive.Wheel) → Exec Broker (Unit {0})
  on_keep_alive f b = let (r, w) = f b.keep_alive in (r, record b { keep_alive = w })

  abbrev pub on_retransmit :
      (Retransmit.Wheel → Outcome (Unit {0}) × Retransmit.Wheel) → Exec Broker (Unit {0})
  on_retransmit f b = let (r, w) = f b.retransmit in (r, record b { retransmit = w })

  -- `RetransTimeWheel::schedule_timer` and `cancel_timer`
  abbrev pub schedule_timer : ℕ → ℕ → ℕ → ℕ → ℕ → List ℕ → Exec Broker (Unit {0})
  schedule_timer addr msg_type topic_id msg_id seconds bytes =
      let header : RetransmitHeader = record {
        addr = addr;
        msg_type = msg_type;
        topic_id = topic_id;
        msg_id = msg_id;
      } in
      on_retransmit (Retransmit.schedule_timer header seconds bytes)

  abbrev pub cancel_timer : ℕ → ℕ → ℕ → ℕ → Exec Broker (Unit {0})
  cancel_timer addr msg_type topic_id msg_id =
      let header : RetransmitHeader = record {
        addr = addr;
        msg_type = msg_type;
        topic_id = topic_id;
        msg_id = msg_id;
      } in
      on_retransmit (Retransmit.cancel_timer header)

  -- `PubMsgCache::try_insert`
  unfoldable pub cache_publish : ℕ × ℕ → PubMsgCache → Exec Broker (Unit {0})
  cache_publish key value b = elim (b.pub_msg_cache key) [
    | none ↦ (ok tt, record b { pub_msg_cache = put b.pub_msg_cache key value })
    | some old ↦ (err already_exists, b)
  ]

  -- `PubMsgCache::remove`
  unfoldable pub uncache_publish : ℕ × ℕ → Exec Broker (Option PubMsgCache)
  uncache_publish key b =
      (ok (b.pub_msg_cache key), record b { pub_msg_cache = erase b.pub_msg_cache key })

  -- `AsleepMsgCache::insert`
  unfoldable pub cache_asleep : ℕ → Publish → Exec Broker (Unit {0})
  cache_asleep addr publish b =
      (ok tt, record b { asleep_msg_cache = B.insert b.asleep_msg_cache addr publish })

  -- `Retain::insert`
  unfoldable pub retain : Retain → Exec Broker (Unit {0})
  retain r b = (ok tt, record b { retain_map = put b.retain_map r.topic_id r })
