-- ===== src/Topics.antt =====
-- The registry of topic names and the subscriptions by topic id: the globals `TOPIC_IDS`,
-- `TOPIC_IDS_QOS`, `TOPIC_NAME_TO_IDS` and `TOPIC_ID_COUNTER` of lib/broker-lib/src/filter.rs.
pub mod Subscriptions
pub mod Registry
use rust_mqtt_sn.Prelude.{
  ℕ, ◌+◌, Bool, Option, none, some, List, [], ◌∷◌, Eq, ◌==◌, nat_eq, list_eq, pair_eq, put, erase,
  if◌then◌else◌,
}
use rust_mqtt_sn.Prelude.Bytes.{u16}
use rust_mqtt_sn.Outcome.{Outcome, ok, err, duplicate, not_found}
use rust_mqtt_sn.Bisetmap.{BisetMaps}

pub record Subscriber : Type 0 where
  pub socket_addr : ℕ
  pub qos : ℕ

-- `topic_ids[0]` of the vector that a name has, if it is not empty.
abbrev pub first : List ℕ → Option ℕ
first [] = none
first (id ∷ ids) = some id

module _ ⦃B : BisetMaps⦄ where
  pub record Topics : Type 0 where
    pub topic_ids : B.Map ℕ ℕ
    pub topic_ids_qos : ℕ × ℕ → Option ℕ
    pub topic_name_to_ids : B.Map (List ℕ) ℕ
    pub topic_id_counter : ℕ

  unfoldable pub remove_qos : ℕ → ℕ → Topics → Option ℕ × Topics
  remove_qos id addr t =
      (t.topic_ids_qos (id, addr), record t { topic_ids_qos = erase t.topic_ids_qos (id, addr) })

  -- The loop of `delete_topic_id`.
  remove_each : ℕ → List ℕ → (ℕ × ℕ → Option ℕ) → ℕ × ℕ → Option ℕ
  remove_each id [] m = m
  remove_each id (sub ∷ subs) m = remove_each id subs (erase m (id, sub))

  unfoldable pub delete_topic_id : ℕ → Topics → Topics
  unfolding remove_each
  delete_topic_id id t = record t {
    topic_ids = B.delete t.topic_ids id;
    topic_ids_qos = remove_each id (B.get t.topic_ids id) t.topic_ids_qos;
  }

  unfoldable pub get_topic_id_with_topic_name : List ℕ → Topics → Option ℕ
  get_topic_id_with_topic_name name t = first (B.get t.topic_name_to_ids name)

  unfoldable pub try_register_topic_name : List ℕ → ℕ → Topics → Outcome ℕ × Topics
  try_register_topic_name name id t = elim (first (B.get t.topic_name_to_ids name)) [
    | none ↦ (ok id, record t { topic_name_to_ids = B.insert t.topic_name_to_ids name id })
    | some old ↦ if old == id then (ok old, t) else (err duplicate, t)
  ]

  -- The counter is a `u16`, which wraps in a release build. The source returns `Ok` always.
  unfoldable pub try_insert_topic_name : List ℕ → Topics → ℕ × Topics
  try_insert_topic_name name t = elim (first (B.get t.topic_name_to_ids name)) [
    | none ↦ (
      t.topic_id_counter,
      record t {
        topic_name_to_ids = B.insert t.topic_name_to_ids name t.topic_id_counter;
        topic_id_counter = u16 (t.topic_id_counter + 1);
      },
    )
    | some id ↦ (id, t)
  ]

  unfoldable pub subscribe_with_topic_id : ℕ → ℕ → ℕ → Topics → Topics
  subscribe_with_topic_id addr id qos t = record t {
    topic_ids = B.insert t.topic_ids id addr;
    topic_ids_qos = put t.topic_ids_qos (id, addr) qos;
  }

  unfoldable pub subscribe_with_topic_name : ℕ → List ℕ → ℕ → Topics → ℕ × Topics
  unfolding try_insert_topic_name subscribe_with_topic_id
  subscribe_with_topic_name addr name qos t =
      let (id, t') = try_insert_topic_name name t in (id, subscribe_with_topic_id addr id qos t')

  -- The entry of `TOPIC_IDS_QOS` stays.
  unfoldable pub unsubscribe_with_topic_id : ℕ → ℕ → Topics → Topics
  unsubscribe_with_topic_id addr id t = record t { topic_ids = B.remove t.topic_ids id addr }

  unfoldable pub unsubscribe_with_topic_name : ℕ → List ℕ → Topics → Outcome (Unit {0}) × Topics
  unfolding unsubscribe_with_topic_id
  unsubscribe_with_topic_name addr name t = elim (first (B.get t.topic_name_to_ids name)) [
    | none ↦ (err not_found, t)
    | some id ↦ (ok tt, unsubscribe_with_topic_id addr id t)
  ]

  -- The loop of `get_subscribers_with_topic_id`: an address without a QoS is left out.
  pub collect : ℕ → (ℕ × ℕ → Option ℕ) → List ℕ → List Subscriber
  collect id m [] = []
  collect id m (addr ∷ addrs) =
      let rest = collect id m addrs in
      elim (m (id, addr)) [
        | none ↦ rest
        | some qos ↦ record { socket_addr = addr; qos = qos } ∷ rest
      ]

  unfoldable pub get_subscribers_with_topic_id : ℕ → Topics → List Subscriber
  unfolding collect
  get_subscribers_with_topic_id id t = collect id t.topic_ids_qos (B.get t.topic_ids id)

  unfoldable pub delete_topic_ids_with_socket_addr : ℕ → Topics → List ℕ × Topics
  delete_topic_ids_with_socket_addr addr t =
      (B.rev_get t.topic_ids addr, record t { topic_ids = B.rev_delete t.topic_ids addr })
