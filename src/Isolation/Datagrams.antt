-- ===== src/Isolation/Datagrams.antt =====
-- Isolation of a whole datagram: `handle_ingress` of lib/broker-lib/src/broker_lib.rs.
use rust_mqtt_sn.Prelude.{
  ℕ, zero, suc, ◌≡◌, ◌≢◌, refl, ◌∙◌, Bool, Option, List, [], ◌∷◌, get_elem?, length, All, not, ◌&&◌,
  ◌==◌, nat_eq,
}
use rust_mqtt_sn.Outcome.{ok, connect_twice, no_connection}
use rust_mqtt_sn.Wire.Consts.{msg_type_connect}
use rust_mqtt_sn.Bisetmap.{BisetMaps}
use rust_mqtt_sn.Exec.{Exec}
use rust_mqtt_sn.Exec.Keeps.{
  Keeps, Keeps-then, Keeps-if, Keeps-raise, Keeps-attempt, Keeps-bind-lift,
}
use rust_mqtt_sn.Broker.{Broker}
use rust_mqtt_sn.Connection.{Connection}
use rust_mqtt_sn.Wire.Header.{MsgHeader, try_read}
use rust_mqtt_sn.Wire.Framing.{try_read-len}
use rust_mqtt_sn.Isolation.{Same, same_rules, on_keep_alive-Same}
use rust_mqtt_sn.Isolation.Messages
use rust_mqtt_sn.KeepAlive
use rust_mqtt_sn.Broker.Clients.{contains_key}
use rust_mqtt_sn.Dispatch.{Handler, functions, call, admit, dispatch, ingress, recv_reserved}

module _ ⦃B : BisetMaps⦄ (other : ℕ) (conn : Option Connection) (header : MsgHeader)
    (ne : other ≢ header.remote_socket_addr) where
  abbrev Kept : {A : Type 0} → Exec Broker A → Type 0
  Kept = Keeps (Same header.remote_socket_addr other ne conn)

  -- Every handler of a table.
  abbrev AllKept : List Handler → Type 0
  AllKept = All (λ f. (buf : List ℕ) (size : ℕ) → Kept (f buf size header))

  reserved-Same : (buf : List ℕ) (size : ℕ) → Kept (recv_reserved buf size header)
  reserved-Same buf size = search same_rules

  call-Same :
      (fs : List Handler) (i : ℕ) (buf : List ℕ) (size : ℕ)
      → AllKept fs
      → Kept (call (get_elem? fs i) buf size header)
  unfolding call
  call-Same [] i buf size all = search same_rules
  call-Same (f ∷ fs) zero buf size all = all.0 buf size
  call-Same (f ∷ fs) (suc i) buf size all = call-Same fs i buf size (all.1)

  functions-Same : AllKept functions
  unfolding functions
  functions-Same = (
    Messages.advertise-Same other conn header ne,
    (
      Messages.gw_info-Same other conn header ne,
      (
        Messages.gw_info-Same other conn header ne,
        (
          reserved-Same,
          (
            Messages.connect-Same other conn header ne,
            (
              Messages.conn_ack-Same other conn header ne,
              (
                Messages.will_topic_req-Same other conn header ne,
                (
                  Messages.will_topic-Same other conn header ne,
                  (
                    Messages.will_msg_req-Same other conn header ne,
                    (
                      Messages.will_msg-Same other conn header ne,
                      (
                        Messages.register-Same other conn header ne,
                        (
                          Messages.reg_ack-Same other conn header ne,
                          (
                            Messages.publish-Same other conn header ne,
                            (
                              Messages.pub_ack-Same other conn header ne,
                              (
                                reserved-Same,
                                (
                                  Messages.pub_rec-Same other conn header ne,
                                  (
                                    Messages.pub_rel-Same other conn header ne,
                                    (
                                      reserved-Same,
                                      (
                                        Messages.subscribe-Same other conn header ne,
                                        (
                                          Messages.sub_ack-Same other conn header ne,
                                          (
                                            Messages.unsubscribe-Same other conn header ne,
                                            (
                                              Messages.unsub_ack-Same other conn header ne,
                                              (
                                                Messages.ping_req-Same other conn header ne,
                                                (
                                                  Messages.ping_resp-Same other conn header ne,
                                                  (
                                                    Messages.disconnect-Same other conn header ne,
                                                    (
                                                      reserved-Same,
                                                      (
                                                        Messages.will_topic_upd-Same other conn
                                                            header ne,
                                                        (
                                                          Messages.will_topic_resp-Same other conn
                                                            header ne,
                                                          (
                                                            Messages.will_msg_upd-Same other conn
                                                            header ne,
                                                            (
                                                            Messages.will_msg_resp-Same other conn
                                                            header ne,
                                                            tt,
                                                            ),
                                                          ),
                                                        ),
                                                      ),
                                                    ),
                                                  ),
                                                ),
                                              ),
                                            ),
                                          ),
                                        ),
                                      ),
                                    ),
                                  ),
                                ),
                              ),
                            ),
                          ),
                        ),
                      ),
                    ),
                  ),
                ),
              ),
            ),
          ),
        ),
      ),
    ),
  )

  admit-Same : (known : Bool) (buf : List ℕ) → Kept (admit known buf header)
  unfolding admit
  admit-Same known buf =
      let is_connect = header.msg_type == msg_type_connect in
      Keeps-if (known && is_connect) _ _ (Keeps-raise connect_twice) (
        Keeps-if (not known && not is_connect) _ _ (Keeps-raise no_connection)
          (call-Same functions header.msg_type buf (length buf) functions-Same))

  pub dispatch-Same : (addr : ℕ) (buf : List ℕ) → Kept (dispatch addr buf header)
  unfolding dispatch
  dispatch-Same addr buf = record { at = λ b h. (admit-Same (contains_key addr b) buf).at b h }

module _ ⦃B : BisetMaps⦄ where
  -- A datagram from one address, whatever its octets are and however it ends, leaves the
  -- connection of every other address as it was.
  pub ingress-others :
      (addr other : ℕ) (buf : List ℕ) (b : Broker)
      → other ≢ addr
      → (ingress addr buf b).1.conn_hashmap other ≡ b.conn_hashmap other
  unfolding ingress
  ingress-others addr other buf b ne =
      let conn = b.conn_hashmap other in
      let read = try_read buf (length buf) addr in
      let rest : (h : MsgHeader)
          → read ≡ ok h
          → Keeps (Same addr other ne conn) (dispatch addr buf h) =
        λ h e. dispatch-Same other conn h (λ p. ne (p ∙ (try_read-len buf addr h e).1)) addr buf in
      (Keeps-then _ _
          (Keeps-attempt _ (on_keep_alive-Same addr other ne conn (KeepAlive.reschedule addr)))
          (Keeps-bind-lift read (dispatch addr buf) rest)).at
        b refl
