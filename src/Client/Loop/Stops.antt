-- ===== src/Client/Loop/Stops.antt =====
-- Which datagrams end the receiving thread of an active client: `rx_loop` of
-- lib/client-lib/src/ClientLib.rs.
use rust_mqtt_sn.Prelude.{
  ℕ, ◌-◌, ◌≡◌, ◌≤◌, refl, Bool, not, ◌||◌, some, List, [], ◌∷◌, length, subst, sym, take, drop,
  get_elem?, arith, ltb, ◌==◌, nat_eq, if◌then◌else◌, length-append, length-take, length-drop,
}
use rust_mqtt_sn.Outcome.{ok, panic}
use rust_mqtt_sn.Wire.Utf8.{is_utf8}
use rust_mqtt_sn.Wire.Messages.ConnAck as ConnAckForm
use rust_mqtt_sn.Wire.Messages.PubAck as PubAckForm
use rust_mqtt_sn.Wire.Messages.Publish as PublishForm
use rust_mqtt_sn.Wire.Messages.SubAck as SubAckForm
use rust_mqtt_sn.Wire.Messages.Subscribe as SubscribeForm
use rust_mqtt_sn.Client.{Client, transmit, schedule, cancel, hand_over, dropping}
use rust_mqtt_sn.Client.Consts.{msg_type_publish, msg_type_subscribe, msg_type_connack}
use rust_mqtt_sn.Client.StateMachine.{state_active, transition}
use rust_mqtt_sn.Client.Handlers.ConnAck
use rust_mqtt_sn.Client.Handlers.PubAck
use rust_mqtt_sn.Client.Handlers.PubComp
use rust_mqtt_sn.Client.Handlers.PubRec
use rust_mqtt_sn.Client.Handlers.PubRel
use rust_mqtt_sn.Client.Handlers.Publish
use rust_mqtt_sn.Client.Handlers.SubAck
use rust_mqtt_sn.Client.Handlers.Subscribe
use rust_mqtt_sn.Client.Loop.{advance, on_connack, dispatch, round, fill, received, buffer_size}

-- The buffer keeps its size.
pub length-fill :
    (octets buf : List ℕ) → length buf ≡ buffer_size → length (fill octets buf) ≡ buffer_size
length-fill octets buf h = omega (
  arith,
  length-append {0} (received octets) (drop (length (received octets)) buf),
  length-take {0} buffer_size octets,
  length-drop {0} (length (received octets)) buf,
)

-- What ends the thread: a CONNACK, a PUBLISH or a SUBSCRIBE that ends before its variable field
-- begins, and a SUBSCRIBE whose topic is no UTF-8.
abbrev pub stops : ℕ → List ℕ → ℕ → Bool
stops msg_type buf size =
    if msg_type == msg_type_publish
    then ltb size 7
    else (if msg_type == msg_type_subscribe
        then ltb size 5 || not (is_utf8 (take (size - 5) (drop 5 buf)))
        else msg_type == msg_type_connack)

-- A buffer of eight octets or more.
abbrev long_buffer : ℕ → ℕ → ℕ → ℕ → ℕ → ℕ → ℕ → ℕ → List ℕ → List ℕ
long_buffer a b c d e f g h rest = a ∷ b ∷ c ∷ d ∷ e ∷ f ∷ g ∷ h ∷ rest

module _ (a b c d e f g h : ℕ) (rest : List ℕ) (size addr : ℕ) (s : Client) where
  abbrev buf : List ℕ
  buf = long_buffer a b c d e f g h rest

  publish-stops :
      size ≤ length buf
      → (dropping (Publish.rx buf size addr) s).0 ≡ (if ltb size 7 then panic else ok tt)
  unfolding Publish.rx PublishForm.try_read PubAck.tx PubRec.tx transmit schedule hand_over
  publish-stops l = ground arith

  subscribe-stops :
      size ≤ length buf
      → (dropping (Subscribe.rx buf size addr) s).0
        ≡ (if ltb size 5 || not (is_utf8 (take (size - 5) (drop 5 buf))) then panic else ok tt)
  unfolding Subscribe.rx SubscribeForm.try_read SubAck.tx transmit
  subscribe-stops l = ground arith

  puback-goes_on : (dropping (PubAck.rx buf size addr) s).0 ≡ ok tt
  unfolding PubAck.rx PubAckForm.try_read cancel
  puback-goes_on = ground arith

  suback-goes_on : (dropping (SubAck.rx buf size addr) s).0 ≡ ok tt
  unfolding SubAck.rx SubAckForm.try_read cancel
  suback-goes_on = ground arith

  pubrec-goes_on : (dropping (PubRec.rx buf size addr) s).0 ≡ ok tt
  unfolding PubRec.rx PubRel.tx transmit cancel
  pubrec-goes_on = ground arith

  pubcomp-goes_on : (dropping (PubComp.rx buf size addr) s).0 ≡ ok tt
  unfolding PubComp.rx cancel
  pubcomp-goes_on = ground arith

  connack-stops : s.state ≡ state_active → (on_connack buf size addr s).0 ≡ panic
  unfolding on_connack ConnAck.rx ConnAckForm.try_read cancel transition advance
  connack-stops active = ground arith

  dispatch-stops :
      (t : ℕ)
      → size ≤ length buf
      → s.state ≡ state_active
      → (dispatch t buf size addr s).0 ≡ (if stops t buf size then panic else ok tt)
  unfolding dispatch
  dispatch-stops t l active = ground (
    arith,
    publish-stops l,
    subscribe-stops l,
    puback-goes_on,
    suback-goes_on,
    pubrec-goes_on,
    pubcomp-goes_on,
    connack-stops active,
  )

record IsLong (buf : List ℕ) : Type 0 where
  a : ℕ
  b : ℕ
  c : ℕ
  d : ℕ
  e : ℕ
  f : ℕ
  g : ℕ
  h : ℕ
  rest : List ℕ
  same : buf ≡ long_buffer a b c d e f g h rest

lengths-IsLong : (buf : List ℕ) → 8 ≤ length buf → IsLong buf
lengths-IsLong (a ∷ b ∷ c ∷ d ∷ e ∷ f ∷ g ∷ h ∷ rest) l = record {
  a = a;
  b = b;
  c = c;
  d = d;
  e = e;
  f = f;
  g = g;
  h = h;
  rest = rest;
  same = refl;
}
lengths-IsLong [] l = absurd (omega arith)
lengths-IsLong (a ∷ []) l = absurd (omega arith)
lengths-IsLong (a ∷ b ∷ []) l = absurd (omega arith)
lengths-IsLong (a ∷ b ∷ c ∷ []) l = absurd (omega arith)
lengths-IsLong (a ∷ b ∷ c ∷ d ∷ []) l = absurd (omega arith)
lengths-IsLong (a ∷ b ∷ c ∷ d ∷ e ∷ []) l = absurd (omega arith)
lengths-IsLong (a ∷ b ∷ c ∷ d ∷ e ∷ f ∷ []) l = absurd (omega arith)
lengths-IsLong (a ∷ b ∷ c ∷ d ∷ e ∷ f ∷ g ∷ []) l = absurd (omega arith)

dispatch-stops_long :
    (t : ℕ) (buf : List ℕ) (size addr : ℕ) (s : Client)
    → 8 ≤ length buf
    → size ≤ length buf
    → s.state ≡ state_active
    → (dispatch t buf size addr s).0 ≡ (if stops t buf size then panic else ok tt)
dispatch-stops_long t buf size addr s l k active =
    let i = lengths-IsLong buf l in
    let long = long_buffer i.a i.b i.c i.d i.e i.f i.g i.h i.rest in
    subst (λ x. (dispatch t x size addr s).0 ≡ (if stops t x size then panic else ok tt))
      (sym i.same)
      (dispatch-stops i.a i.b i.c i.d i.e i.f i.g i.h i.rest size addr s t
        (subst (λ x. size ≤ length x) i.same k) active)

-- For an active client, a datagram ends the receiving thread by a panic exactly if the buffer that
-- it was received into says so; on any other the thread goes on. Octets that the datagram does not
-- reach are those of the datagrams before.
pub round-stops :
    (octets : List ℕ) (addr t : ℕ) (buf : List ℕ) (s : Client)
    → length buf ≡ buffer_size
    → s.state ≡ state_active
    → get_elem? (fill octets buf) 1 ≡ some t
    → (round octets addr buf s).0
      ≡ (if stops t (fill octets buf) (length (received octets)) then panic else ok tt)
unfolding round
round-stops octets addr t buf s size active e =
    let full = length-fill octets buf size in
    rw e (
      dispatch-stops_long t (fill octets buf) (length (received octets)) addr s (omega arith)
        (omega (arith, length-take {0} buffer_size octets)) active)
