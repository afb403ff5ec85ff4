-- ===== src/Client/Threads/Arrivals.antt =====
-- What the receiving thread of the client keeps: the wheel, the state and the size of the buffer.
use rust_mqtt_sn.Prelude.{
  ℕ, ◌≡◌, ◌⊎◌, inl, inr, refl, List, [], ◌∷◌, length, arith, ◌==◌, nat_eq, Bool-cases, Option-cases,
  get_elem?, subst, sym,
}
use rust_mqtt_sn.Outcome.{Outcome, ok, err, panic}
use rust_mqtt_sn.Exec.Keeps.{Keeps, keeps_rules}
use rust_mqtt_sn.Retransmit.{RetransmitHeader, header_eq}
use rust_mqtt_sn.Wire.Messages.ConnAck.{try_read}
use rust_mqtt_sn.Client.{Client, cancel}
use rust_mqtt_sn.Client.Consts.{msg_type_connack}
use rust_mqtt_sn.Client.StateMachine.{transition, state_active, state_connect_sent}
use rust_mqtt_sn.Client.TimingWheel.{Wheel}
use rust_mqtt_sn.Client.TimingWheel.Entries.{IsRunning}
use rust_mqtt_sn.Client.Handlers.ConnAck
use rust_mqtt_sn.Client.Handlers.Effects.{
  Has, dropping-Has, ConnAck-Has, PubAck-Has, PubComp-Has, PubRec-Has, SubAck-Has, Subscribe-Has,
  Publish-Has,
}
use rust_mqtt_sn.Client.Loop.{advance, on_connack, dispatch, round, fill, received, buffer_size}
use rust_mqtt_sn.Client.Loop.Stops.{length-fill}
use rust_mqtt_sn.Client.Threads.{
  World, Phase, connack_phase, next_phase, empty_buffer, connecting, looping, stopped, Header,
  arrive, await_connack,
}

-- The wheel of the client: it runs, and has the sizes that it was made with.
pub record IsReady (w : Wheel Header (List ℕ)) : Type 0 where
  pub running : IsRunning w
  pub size : w.max_slot ≡ 1280
  pub wait : w.default_duration ≡ 3

-- CONNECT was sent and no CONNACK came yet, or the client is active.
abbrev pub IsState : Phase → ℕ → Type 0
IsState connecting s = s ≡ state_connect_sent
IsState looping s = s ≡ state_active
IsState stopped s = (s ≡ state_active) ⊎ (s ≡ state_connect_sent)

pub record IsSound (w : World) : Type 0 where
  pub wheel : IsReady w.client.wheel
  pub state : IsState w.phase w.client.state
  pub buffer : length w.buf ≡ buffer_size

-- ConnAck::rx finds its own length whatever it reads.
ConnAck-no_err :
    (buf : List ℕ) (size addr : ℕ) (c : Client)
    → ((ConnAck.rx buf size addr c).0 ≡ ok tt) ⊎ ((ConnAck.rx buf size addr c).0 ≡ panic)
unfolding ConnAck.rx try_read cancel
ConnAck-no_err [] size addr c = inr refl
ConnAck-no_err (a ∷ []) size addr c = inr refl
ConnAck-no_err (a ∷ b ∷ []) size addr c = inr refl
ConnAck-no_err (a ∷ b ∷ d ∷ rest) size addr c = inl refl

module _ (wheel : Wheel RetransmitHeader (List ℕ)) where
  advance-active : Keeps (Has state_active wheel) (advance msg_type_connack)
  unfolding advance transition
  advance-active = record { at = λ c h. ground arith }

  on_connack-active :
      (buf : List ℕ) (size addr : ℕ) → Keeps (Has state_active wheel) (on_connack buf size addr)
  unfolding on_connack
  on_connack-active buf size addr = record {
    at = λ c h.
        let h' = (ConnAck-Has state_active wheel buf size addr).at c h in
        elim (ConnAck-no_err buf size addr c) [
          | inl e ↦ rw e (advance-active.at ((ConnAck.rx buf size addr c).1) h')
          | inr e ↦ rw e h'
        ];
  }

  dispatch-active :
      (msg_type : ℕ) (buf : List ℕ) (size addr : ℕ)
      → Keeps (Has state_active wheel) (dispatch msg_type buf size addr)
  unfolding dispatch
  dispatch-active msg_type buf size addr =
      search
        (
          keeps_rules, dropping-Has, Publish-Has, PubAck-Has, SubAck-Has, Subscribe-Has, PubRec-Has,
          PubComp-Has, on_connack-active,
        )
        depth 24

  -- In the loop of an active client, whatever arrives, the state and the wheel stay.
  pub round-active :
      (octets : List ℕ) (addr : ℕ) (buf : List ℕ)
      → Keeps (Has state_active wheel) (round octets addr buf)
  unfolding round
  round-active octets addr buf = search (keeps_rules, dispatch-active)

advance-connecting :
    (wheel : Wheel RetransmitHeader (List ℕ)) (c : Client)
    → Has state_connect_sent wheel c
    → ((advance msg_type_connack c).0 ≡ ok tt)
      × Has state_active wheel (advance msg_type_connack c).1
unfolding advance transition
advance-connecting wheel c h = ground arith

-- What the loop of `connect` makes of a datagram: it goes on, or the client is active.
await_connack-state :
    (addr : ℕ) (octets : List ℕ) (wheel : Wheel RetransmitHeader (List ℕ)) (c : Client)
    → Has state_connect_sent wheel c
    → IsState (connack_phase (await_connack addr octets c).0) (await_connack addr octets c).1.state
      × ((await_connack addr octets c).1.wheel ≡ wheel)
unfolding await_connack on_connack
await_connack-state addr octets wheel c h =
    let buf = fill octets empty_buffer in
    let size = length (received octets) in
    elim (Option-cases (get_elem? buf 1)) [
      | inl e ↦ rw e (inr h.0, h.1)
      | inr (t, e) ↦ rw e (elim (Bool-cases (t == msg_type_connack)) [
        | inl is_connack ↦
            let h' = (ConnAck-Has state_connect_sent wheel buf size addr).at c h in
            elim (ConnAck-no_err buf size addr c) [
              | inl fine ↦
                  let (a, h2) = advance-connecting wheel (ConnAck.rx buf size addr c).1 h' in
                  rw (is_connack, fine, a) h2
              | inr bad ↦ rw (is_connack, bad) (inr h'.0, h'.1)
            ]
        | inr other ↦ rw other h
      ])
    ]

IsState-looping :
    (r : Outcome (Unit {0})) (s : ℕ) → s ≡ state_active → IsState (next_phase looping r) s
IsState-looping (ok a) s h = h
IsState-looping (err e) s h = h
IsState-looping panic s h = inl h

pub arrive-IsSound :
    (phase : Phase) (addr : ℕ) (octets : List ℕ) (w : World)
    → IsReady w.client.wheel
    → IsState phase w.client.state
    → length w.buf ≡ buffer_size
    → w.phase ≡ phase
    → IsSound (arrive phase addr octets w)
unfolding arrive
arrive-IsSound connecting addr octets w r s b p =
    let (st, wh) = await_connack-state addr octets w.client.wheel w.client (s, refl) in
    record { wheel = subst IsReady (sym wh) r; state = st; buffer = b }
arrive-IsSound looping addr octets w r s b p =
    let (st, wh) = (round-active w.client.wheel octets addr w.buf).at w.client (s, refl) in
    record {
      wheel = subst IsReady (sym wh) r;
      state = IsState-looping (round octets addr w.buf w.client).0 _ st;
      buffer = length-fill octets w.buf b;
    }
arrive-IsSound stopped addr octets w r s b p = record {
  wheel = r;
  state = subst (λ ph. IsState ph w.client.state) (sym p) s;
  buffer = b;
}
