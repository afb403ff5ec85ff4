-- ===== src/Retransmit/Pending.antt =====
-- What the wheel sends again: lib/broker-lib/src/retransmit.rs.
use rust_mqtt_sn.Prelude.{
  ℕ, ◌+◌, ◌≡◌, refl, true, Option, none, some, List, [], ◌∷◌, ◌++◌, arith, All, ◌%◌, Option-cases,
  inl, inr, ◌⊎◌, Bool-cases, ltb, ◌*◌,
}
use rust_mqtt_sn.Prelude.Bytes.{u16}
use rust_mqtt_sn.Connection.{StateEnum2, active}
use rust_mqtt_sn.Outcome.{ok}
use rust_mqtt_sn.Wheel.{max_slot, clear}
use rust_mqtt_sn.Retransmit.{
  Wheel, RetransmitHeader, Entry, visit, drain, tick, cancel_timer, is_active,
}

-- A message of the map, to a client that is active.
pub record IsPending (state_of : ℕ → Option StateEnum2) (w : Wheel) (message : ℕ × List ℕ)
    : Type 0 where
  pub header : RetransmitHeader
  pub stored : w.time_wheel_map header ≡ some message.1
  pub to : header.addr ≡ message.0
  pub is_up : state_of header.addr ≡ some active

All-append {ℓ κ} :
    {A : Type ℓ} (P : A → Type κ) (xs ys : List A) → All P xs → All P ys → All P (xs ++ ys)
All-append P [] ys hx hy = hy
All-append P (x ∷ xs) ys hx hy = (hx.0, All-append P xs ys hx.1 hy)

is_active-some : (s : Option StateEnum2) → is_active s ≡ true → s ≡ some active
is_active-some s h = ground arith

module _ (state_of : ℕ → Option StateEnum2) (cur : ℕ) where
  -- No round puts anything into the map.
  visit-map :
      (entry : Entry) (header : RetransmitHeader) (bytes : List ℕ) (w : Wheel)
      → (visit state_of cur entry w).0.time_wheel_map header ≡ some bytes
      → w.time_wheel_map header ≡ some bytes
  unfolding visit
  visit-map (h, d) header bytes w e = ground arith

  abbrev Sent : RetransmitHeader → Wheel → List (ℕ × List ℕ) → Type 0
  Sent h w sent =
      (sent ≡ [])
      ⊎ ((bytes : List ℕ) × (sent ≡ (h.addr, bytes) ∷ [])
          × (w.time_wheel_map h ≡ some bytes)
          × (is_active (state_of h.addr) ≡ true))

  visit-Sent : (h : RetransmitHeader) (d : ℕ) (w : Wheel) → Sent h w (visit state_of cur (h, d) w).1
  unfolding visit
  visit-Sent h d w = elim (Option-cases (w.time_wheel_map h)) [
    | inl e ↦ inl (ground arith)
    | inr (bytes, e) ↦ elim (Bool-cases (is_active (state_of h.addr))) [
      | inl up ↦ elim (Bool-cases (ltb (u16 (d * 2)) max_slot)) [
        | inl more ↦ inr (bytes, ground arith, e, up)
        | inr over ↦ inl (ground arith)
      ]
      | inr down ↦ inl (ground arith)
    ]
  ]

  visit-sends :
      (entry : Entry) (w : Wheel) → All (IsPending state_of w) (visit state_of cur entry w).1
  visit-sends (h, d) w = elim (visit-Sent h d w) [
    | inl e ↦ rw e tt
    | inr (bytes, e, stored, up) ↦
        rw e (record { header = h; stored = stored; to = refl; is_up = is_active-some _ up }, tt)
  ]

  pub drain-map :
      (entries : List Entry) (header : RetransmitHeader) (bytes : List ℕ) (w : Wheel)
      → (drain state_of cur entries w).0.time_wheel_map header ≡ some bytes
      → w.time_wheel_map header ≡ some bytes
  unfolding drain
  drain-map [] header bytes w e = e
  drain-map (entry ∷ entries) header bytes w e =
      visit-map entry header bytes w
        (drain-map entries header bytes (visit state_of cur entry w).0 e)

  earlier :
      (w w' : Wheel) (sent : List (ℕ × List ℕ))
      → ((header : RetransmitHeader) (bytes : List ℕ)
          → w'.time_wheel_map header ≡ some bytes
          → w.time_wheel_map header ≡ some bytes)
      → All (IsPending state_of w') sent
      → All (IsPending state_of w) sent
  earlier w w' [] sub h = tt
  earlier w w' (m ∷ ms) sub h = (
    record {
      header = h.0.header;
      stored = sub h.0.header m.1 h.0.stored;
      to = h.0.to;
      is_up = h.0.is_up;
    },
    earlier w w' ms sub h.1,
  )

  drain-sends :
      (entries : List Entry) (w : Wheel)
      → All (IsPending state_of w) (drain state_of cur entries w).1
  unfolding drain
  drain-sends [] w = tt
  drain-sends (entry ∷ entries) w =
      All-append (IsPending state_of w) (visit state_of cur entry w).1
        (drain state_of cur entries (visit state_of cur entry w).0).1 (visit-sends entry w)
        (earlier w (visit state_of cur entry w).0 _ (λ h b. visit-map entry h b w)
          (drain-sends entries (visit state_of cur entry w).0))

module _ (state_of : ℕ → Option StateEnum2) (w : Wheel) where
  abbrev opened : Wheel
  opened = record w {
    current_counter = w.current_counter + 1;
    slot_vec = clear w.slot_vec (w.current_counter % max_slot);
  }

  -- Whatever a tick sends is a message that waits in the map for its acknowledgement, to a client
  -- whose connection is active.
  pub tick-IsPending : All (IsPending state_of w) (tick state_of w).1
  unfolding tick
  tick-IsPending =
      earlier state_of w.current_counter w opened _ (λ h b e. e)
        (drain-sends state_of w.current_counter (w.slot_vec (w.current_counter % max_slot)) opened)

  -- A tick puts no message into the map.
  pub tick-map :
      (header : RetransmitHeader) (bytes : List ℕ)
      → (tick state_of w).0.time_wheel_map header ≡ some bytes
      → w.time_wheel_map header ≡ some bytes
  unfolding tick
  tick-map header bytes e =
      drain-map state_of w.current_counter (w.slot_vec (w.current_counter % max_slot)) header bytes
        opened e

-- The acknowledgement of a message ends it: the header is out of the map.
pub cancel_timer-map :
    (header : RetransmitHeader) (w : Wheel)
    → (cancel_timer header w).0 ≡ ok tt
    → (cancel_timer header w).1.time_wheel_map header ≡ none
unfolding cancel_timer
cancel_timer-map header w h = ground arith
