-- ===== src/Dispatch/Gate.antt =====
-- What the loop of `handle_ingress` in lib/broker-lib/src/broker_lib.rs refuses before a handler is
-- called, and which message types it has no handler for.
use rust_mqtt_sn.Prelude.{
  ℕ, zero, suc, ◌≤◌, ◌≡◌, ◌≢◌, refl, ◌∙◌, ap, Bool, true, false, none, List, [], ◌∷◌, arith, length,
  ◌==◌, nat_eq, get_elem?, if◌then◌else◌,
}
use rust_mqtt_sn.Outcome.{ok, err, panic, reserved, no_connection, connect_twice, invalid_type}
use rust_mqtt_sn.Bisetmap.{BisetMaps}
use rust_mqtt_sn.KeepAlive
use rust_mqtt_sn.Wire.Header.{MsgHeader, try_read}
use rust_mqtt_sn.Wire.Consts.{msg_type_connect, msg_type_pubcomp}
use rust_mqtt_sn.Broker.{Broker}
use rust_mqtt_sn.Broker.Clients.{contains_key}
use rust_mqtt_sn.Dispatch.{ingress, dispatch, admit, call, functions}

module _ ⦃B : BisetMaps⦄ where
  -- The state with the sender's keep-alive timer started again, if it has one.
  abbrev pub heard : ℕ → Broker → Broker
  heard addr b = record b { keep_alive = (KeepAlive.reschedule addr b.keep_alive).1 }

  reschedule-not_panic : (addr : ℕ) (w : KeepAlive.Wheel) → (KeepAlive.reschedule addr w).0 ≢ panic
  unfolding KeepAlive.reschedule
  reschedule-not_panic addr w = ground arith

  -- The loop answers a header that it can read by `admit`, whatever the keep-alive wheel says.
  ingress-admit :
      (addr : ℕ) (buf : List ℕ) (h : MsgHeader) (b : Broker)
      → try_read buf (length buf) addr ≡ ok h
      → ingress addr buf b ≡ admit (contains_key addr b) buf h (heard addr b)
  unfolding ingress dispatch
  ingress-admit addr buf h b e = ground (arith, reschedule-not_panic addr b.keep_alive)

  admit_same :
      (known : Bool) (buf : List ℕ) (h : MsgHeader) (b : Broker)
      → known ≡ (h.msg_type == msg_type_connect)
      → admit known buf h b ≡ ((if known then err connect_twice else err no_connection), b)
  unfolding admit
  admit_same true buf h b same = ground arith
  admit_same false buf h b same = ground arith

  -- Once its header is read, every message but CONNECT is refused without a connection, and CONNECT
  -- is refused with one; either way nothing changes but the sender's keep-alive time.
  pub ingress-refused :
      (addr : ℕ) (buf : List ℕ) (h : MsgHeader) (b : Broker)
      → try_read buf (length buf) addr ≡ ok h
      → contains_key addr b ≡ (h.msg_type == msg_type_connect)
      → ingress addr buf b
        ≡ ((if contains_key addr b then err connect_twice else err no_connection), heard addr b)
  ingress-refused addr buf h b e same =
      ingress-admit addr buf h b e ∙ admit_same (contains_key addr b) buf h (heard addr b) same

  admit_pubcomp :
      (buf : List ℕ) (h : MsgHeader) (b : Broker)
      → h.msg_type ≡ msg_type_pubcomp
      → admit true buf h b ≡ (err reserved, b)
  unfolding admit call functions
  admit_pubcomp buf h b e = ground arith

  beyond : {A : Type 0} (fs : List A) (i : ℕ) → length fs ≤ i → get_elem? fs i ≡ none
  beyond [] i le = refl
  beyond (f ∷ fs) zero le = absurd (omega arith)
  beyond (f ∷ fs) (suc i) le = beyond fs i (omega arith)

  admit_beyond :
      (buf : List ℕ) (h : MsgHeader) (b : Broker)
      → 30 ≤ h.msg_type
      → admit true buf h b ≡ (err invalid_type, b)
  unfolding admit call functions
  admit_beyond buf h b le = ground (arith, beyond functions h.msg_type le)

  -- A PUBCOMP of a connected client is answered by an error, and nothing changes but the client's
  -- keep-alive time: the table has no handler for it.
  pub ingress-pubcomp :
      (addr : ℕ) (buf : List ℕ) (h : MsgHeader) (b : Broker)
      → try_read buf (length buf) addr ≡ ok h
      → contains_key addr b ≡ true
      → h.msg_type ≡ msg_type_pubcomp
      → ingress addr buf b ≡ (err reserved, heard addr b)
  ingress-pubcomp addr buf h b e known p =
      ingress-admit addr buf h b e
      ∙ ap (λ k. admit k buf h (heard addr b)) known
      ∙ admit_pubcomp buf h (heard addr b) p

  -- A message of a connected client whose type is beyond the table is refused, and nothing changes
  -- but the client's keep-alive time.
  pub ingress-beyond :
      (addr : ℕ) (buf : List ℕ) (h : MsgHeader) (b : Broker)
      → try_read buf (length buf) addr ≡ ok h
      → contains_key addr b ≡ true
      → 30 ≤ h.msg_type
      → ingress addr buf b ≡ (err invalid_type, heard addr b)
  ingress-beyond addr buf h b e known le =
      ingress-admit addr buf h b e
      ∙ ap (λ k. admit k buf h (heard addr b)) known
      ∙ admit_beyond buf h (heard addr b) le
