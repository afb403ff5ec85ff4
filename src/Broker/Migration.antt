-- ===== src/Broker/Migration.antt =====
-- What a client takes along when it connects from a new address: `Connection::try_insert` of
-- lib/broker-lib/src/connection.rs.
use rust_mqtt_sn.Prelude.{
  ℕ, ◌≡◌, ◌≢◌, refl, true, false, Option, none, some, List, [], ◌∷◌, arith, ◌==◌, nat_eq, list_eq,
  pair_eq, put, if◌then◌else◌, Bool-cases, inl, inr, ap, ◌∙◌, sym, subst, eq_refl, ne_of_false,
  eq_of_true,
}
use rust_mqtt_sn.Outcome.{ok}
use rust_mqtt_sn.Bisetmap.{BisetMaps}
use rust_mqtt_sn.Connection.{Connection, new}
use rust_mqtt_sn.Wire.Flags.{flag_is_clean_session, flag_is_will}
use rust_mqtt_sn.Topics.{Topics, delete_topic_ids_with_socket_addr}
use rust_mqtt_sn.Topics.Subscriptions.{
  subscription, subscription_lem, subscription-delete_socket_addr,
}
use rust_mqtt_sn.Broker.{Broker}
use rust_mqtt_sn.Broker.Clients.{move_each, migrate, will_of, insert_new, try_insert}
use rust_mqtt_sn.Broker.Moves.{IsOnce, IsMoved, move_each-IsMoved}

module _ ⦃B : BisetMaps⦄ where
  -- The topic ids of an address are listed once each, and each has its QoS.
  pub record IsMovable (old : ℕ) (t : Topics) : Type 0 where
    pub once : IsOnce (B.rev_get t.topic_ids old)
    pub stored :
        (id : ℕ)
        → B.contains t.topic_ids id old ≡ true
        → (q : ℕ) × (t.topic_ids_qos (id, old) ≡ some q)

  -- The subscription of an address after the move.
  abbrev pub after_move : ℕ → ℕ → ℕ → ℕ → Topics → Option ℕ
  after_move old addr j a t =
      if old == a
      then none
      else (if addr == a
          then (elim (subscription j old t) [ some q ↦ some q | none ↦ subscription j a t ])
          else subscription j a t)

  deleted : ℕ → Broker → Broker
  deleted old b = record b { topics = (delete_topic_ids_with_socket_addr old b.topics).1 }

  deleted-qos :
      (old : ℕ) (b : Broker)
      → ((deleted old b).topics.topic_ids_qos ≡ b.topics.topic_ids_qos)
        × ((delete_topic_ids_with_socket_addr old b.topics).0 ≡ B.rev_get b.topics.topic_ids old)
  unfolding deleted delete_topic_ids_with_socket_addr
  deleted-qos old b = (refl, refl)

  -- The subscriptions after the topic ids were deleted and moved.
  moved-subscription :
      (old addr j a : ℕ) (b b' : Broker)
      → old ≢ addr
      → IsMovable old b.topics
      → IsMoved old addr (B.rev_get b.topics.topic_ids old) (deleted old b) b'
      → subscription j a b'.topics ≡ after_move old addr j a b.topics
  unfolding deleted delete_topic_ids_with_socket_addr
  moved-subscription old addr j a b b' apart i m =
      let t = b.topics in
      let gone : B.contains (deleted old b).topics.topic_ids j old ≡ false =
        B.contains-rev_delete t.topic_ids old j old ∙ rw (eq_refl old) refl in
      elim (Bool-cases (old == a)) [
        | inl same ↦ rw same (
            subst (λ x. subscription j x b'.topics ≡ none) (eq_of_true old a same)
              (subscription_lem j old b'.topics ∙ rw (m.same_old j ∙ gone) refl))
        | inr other ↦
            let kept : subscription j a (deleted old b).topics ≡ subscription j a t =
              subscription-delete_socket_addr old a j t ∙ rw other refl in
            let listed = B.elem-rev_get t.topic_ids j old in
            rw other (
              m.moved j a (ne_of_false old a other)
              ∙ elim (Bool-cases (B.contains t.topic_ids j old)) [
                | inl held ↦
                    let (q, h) = i.stored j held in
                    let was : subscription j old t ≡ some q =
                      subscription_lem j old t ∙ rw (held, h) refl in
                    rw (listed ∙ held, was, h, kept) (ground arith)
                | inr absent ↦
                    let was : subscription j old t ≡ none =
                      subscription_lem j old t ∙ rw absent refl in
                    rw (listed ∙ absent, was, kept) (ground arith)
              ])
      ]

  -- The connection that takes over the will of another.
  abbrev pub heir : ℕ → ℕ → ℕ → ℕ → List ℕ → Connection → Connection
  heir addr flags protocol_id duration client_id c =
      record (new addr flags protocol_id duration client_id) {
        will_topic_id = c.will_topic_id;
        will_topic = c.will_topic;
        will_message = c.will_message;
      }

  deleted-frame :
      (old : ℕ) (b : Broker)
      → ((deleted old b).conn_hashmap ≡ b.conn_hashmap)
        × ((deleted old b).client_id_map ≡ b.client_id_map)
  unfolding deleted
  deleted-frame old b = (refl, refl)

  migrate-one :
      (addr flags old : ℕ) (ids : List ℕ) (c : Connection) (b b3 : Broker)
      → flag_is_clean_session flags ≡ false
      → flag_is_will flags ≡ false
      → (delete_topic_ids_with_socket_addr old b.topics).0 ≡ ids
      → move_each old addr ids (deleted old b) ≡ (ok tt, b3)
      → b3.conn_hashmap old ≡ some c
      → migrate addr flags (old ∷ []) (none, [], []) b
        ≡ (ok (c.will_topic_id, c.will_topic, c.will_message), b3)
  unfolding migrate will_of deleted
  migrate-one addr flags old ids c b b3 dirty plain listed move known =
      rw (dirty, plain, listed, move, will_of, known) refl

  try_insert-one :
      (addr flags protocol_id duration : ℕ) (client_id : List ℕ) (old : ℕ) (c : Connection)
      (b b3 : Broker)
      → B.contains b.client_id_map client_id addr ≡ false
      → B.get b.client_id_map client_id ≡ old ∷ []
      → migrate addr flags (old ∷ []) (none, [], []) b
        ≡ (ok (c.will_topic_id, c.will_topic, c.will_message), b3)
      → b3.conn_hashmap addr ≡ none
      → try_insert addr flags protocol_id duration client_id b ≡ (
        ok tt,
        record b3 {
          client_id_map = B.insert b3.client_id_map client_id addr;
          conn_hashmap =
              put b3.conn_hashmap addr (heir addr flags protocol_id duration client_id c);
        },
      )
  unfolding try_insert insert_new new
  try_insert-one addr flags protocol_id duration client_id old c b b3 fresh alone migrated unknown =
      rw (fresh, alone, migrated, insert_new, unknown) refl

  -- A client id that has one old address, which has a connection, connects from a new address that has
  -- none, without a clean session and without a will of its own. If the topic ids of the old address
  -- are listed once and have their QoS, the new address gets an active connection with the will of the
  -- old one and takes over all its subscriptions, with their QoS, beside those that it has; the old
  -- address has none left, and those of all others are as they were. The old connection stays, and so
  -- does the old address of the client id.
  pub try_insert-migrates :
      (addr flags protocol_id duration : ℕ) (client_id : List ℕ) (old j a : ℕ) (c : Connection)
      (b : Broker)
      → B.contains b.client_id_map client_id addr ≡ false
      → B.get b.client_id_map client_id ≡ old ∷ []
      → old ≢ addr
      → flag_is_clean_session flags ≡ false
      → flag_is_will flags ≡ false
      → b.conn_hashmap old ≡ some c
      → b.conn_hashmap addr ≡ none
      → IsMovable old b.topics
      → ((try_insert addr flags protocol_id duration client_id b).0 ≡ ok tt)
        × ((try_insert addr flags protocol_id duration client_id b).1.conn_hashmap
            ≡ put b.conn_hashmap addr (heir addr flags protocol_id duration client_id c))
        × ((try_insert addr flags protocol_id duration client_id b).1.client_id_map
            ≡ B.insert b.client_id_map client_id addr)
        × (subscription j a (try_insert addr flags protocol_id duration client_id b).1.topics
            ≡ after_move old addr j a b.topics)
  try_insert-migrates addr flags protocol_id duration client_id old j a c b fresh alone apart dirty
        plain known unknown i =
      let ids = B.rev_get b.topics.topic_ids old in
      let b1 = deleted old b in
      let (same_qos, listed) = deleted-qos old b in
      let (fine, m) = move_each-IsMoved old addr ids b1 apart i.once (λ id member.
        let (q, h) = i.stored id (sym (B.elem-rev_get b.topics.topic_ids id old) ∙ member) in
        (q, ap (λ f. f (id, old)) same_qos ∙ h)) in
      let b3 = (move_each old addr ids b1).1 in
      let conns : b3.conn_hashmap ≡ b.conn_hashmap =
        ap (λ x. x.conn_hashmap) m.frame ∙ (deleted-frame old b).0 in
      let clients : b3.client_id_map ≡ b.client_id_map =
        ap (λ x. x.client_id_map) m.frame ∙ (deleted-frame old b).1 in
      let known' : b3.conn_hashmap old ≡ some c = ap (λ f. f old) conns ∙ known in
      let unknown' : b3.conn_hashmap addr ≡ none = ap (λ f. f addr) conns ∙ unknown in
      let migrated =
        migrate-one addr flags old ids c b b3 dirty plain listed (ap (λ r. (r, b3)) fine) known' in
      rw
        (try_insert-one addr flags protocol_id duration client_id old c b b3 fresh alone migrated
          unknown')
        (
          refl,
          ap (λ f. put f addr (heir addr flags protocol_id duration client_id c)) conns,
          ap (λ x. B.insert x client_id addr) clients,
          moved-subscription old addr j a b b3 apart i m,
        )
