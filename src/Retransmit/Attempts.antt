-- ===== src/Retransmit/Attempts.antt =====
-- How long the wheel tries: lib/broker-lib/src/retransmit.rs.
use rust_mqtt_sn.Prelude.{
  ℕ, ◌+◌, ◌*◌, ◌-◌, ◌%◌, ◌≤◌, ◌<◌, ◌≡◌, refl, Option, List, [], ◌∷◌, arith, All, length, ◌==◌,
  nat_eq, Bool-cases, inl, inr, ◌∙◌, erase, put,
}
use rust_mqtt_sn.Prelude.Bytes.{u16}
use rust_mqtt_sn.Connection.{StateEnum2}
use rust_mqtt_sn.Wheel.{Slots, max_slot, push, clear}
use rust_mqtt_sn.Retransmit.{
  Wheel, RetransmitHeader, Entry, visit, drain, tick, schedule_timer, header_eq,
}

-- The first time from `cur` on at which slot `i` is emptied.
abbrev pub next_visit : ℕ → ℕ → ℕ
next_visit cur i = cur + (i + max_slot - cur % max_slot) % max_slot

-- An entry that is met at time `t` is dropped by time `end`: its duration doubles at each round,
-- and it is dropped when that reaches the number of slots.
abbrev pub InTime : ℕ → ℕ → Entry → Type 0
InTime end t entry = (0 < entry.1) × (entry.1 < max_slot) × (t + 2560 ≤ end + 2 * entry.1)

pub record EndsBy (end : ℕ) (cur : ℕ) (slots : Slots Entry) : Type 0 where
  pub at_slot : (i : ℕ) → i < max_slot → All (InTime end (next_visit cur i)) (slots i)

module _ (state_of : ℕ → Option StateEnum2) (end cur : ℕ) where
  visit-EndsBy :
      (entry : Entry) (w : Wheel)
      → InTime end cur entry
      → EndsBy end (cur + 1) w.slot_vec
      → EndsBy end (cur + 1) (visit state_of cur entry w).0.slot_vec
  unfolding visit
  visit-EndsBy (h, d) w t e = record { at_slot = λ i l. ground (arith, e.at_slot i l) }

  drain-EndsBy :
      (entries : List Entry) (w : Wheel)
      → All (InTime end cur) entries
      → EndsBy end (cur + 1) w.slot_vec
      → EndsBy end (cur + 1) (drain state_of cur entries w).0.slot_vec
  unfolding drain
  drain-EndsBy [] w t e = e
  drain-EndsBy (entry ∷ entries) w t e =
      drain-EndsBy entries (visit state_of cur entry w).0 t.1 (visit-EndsBy entry w t.0 e)

All-move :
    (end : ℕ) (t u : ℕ) (entries : List Entry)
    → u ≤ t
    → All (InTime end t) entries
    → All (InTime end u) entries
All-move end t u [] l h = tt
All-move end t u (e ∷ es) l h = ((h.0.0, h.0.1, omega arith), All-move end t u es l h.1)

opened-EndsBy :
    (end cur : ℕ) (slots : Slots Entry)
    → EndsBy end cur slots
    → EndsBy end (cur + 1) (clear slots (cur % max_slot))
opened-EndsBy end cur slots e = record {
  at_slot = λ i l. elim (Bool-cases (cur % max_slot == i)) [
    | inl same ↦ rw same tt
    | inr other ↦ rw other (
        All-move end (next_visit cur i) (next_visit (cur + 1) i) (slots i) (ground arith)
          (e.at_slot i l))
  ];
}

-- Every entry of the wheel is dropped by the time `end`.
abbrev pub IsBounded : ℕ → Wheel → Type 0
IsBounded end w = EndsBy end w.current_counter w.slot_vec

module _ (state_of : ℕ → Option StateEnum2) where
  visit-counter :
      (cur : ℕ) (entry : Entry) (w : Wheel)
      → (visit state_of cur entry w).0.current_counter ≡ w.current_counter
  unfolding visit
  visit-counter cur (h, d) w = ground arith

  drain-counter :
      (cur : ℕ) (entries : List Entry) (w : Wheel)
      → (drain state_of cur entries w).0.current_counter ≡ w.current_counter
  unfolding drain
  drain-counter cur [] w = refl
  drain-counter cur (entry ∷ entries) w =
      drain-counter cur entries (visit state_of cur entry w).0 ∙ visit-counter cur entry w

  pub tick-counter : (w : Wheel) → (tick state_of w).0.current_counter ≡ w.current_counter + 1
  unfolding tick
  tick-counter w = drain-counter w.current_counter (w.slot_vec (w.current_counter % max_slot)) _

  -- A tick keeps the bound.
  pub tick-IsBounded : (end : ℕ) (w : Wheel) → IsBounded end w → IsBounded end (tick state_of w).0
  tick-IsBounded end w e = rw tick-counter (
      unfold tick in
      drain-EndsBy state_of end w.current_counter (w.slot_vec (w.current_counter % max_slot)) _
        (All-move end (next_visit w.current_counter (w.current_counter % max_slot))
          w.current_counter _ (omega arith)
          (e.at_slot (w.current_counter % max_slot) (omega arith)))
        (opened-EndsBy end w.current_counter w.slot_vec e))

-- The wheel after some ticks, each of which finds the connections in some state.
pub after : List (ℕ → Option StateEnum2) → Wheel → Wheel
after [] w = w
after (state_of ∷ states) w = after states (tick state_of w).0

after-IsBounded :
    (end : ℕ) (states : List (ℕ → Option StateEnum2)) (w : Wheel)
    → IsBounded end w
    → IsBounded end (after states w)
unfolding after
after-IsBounded end [] w e = e
after-IsBounded end (s ∷ states) w e =
    after-IsBounded end states (tick s w).0 (tick-IsBounded s end w e)

after-counter :
    (states : List (ℕ → Option StateEnum2)) (w : Wheel)
    → (after states w).current_counter ≡ w.current_counter + length states
unfolding after
after-counter [] w = omega arith
after-counter (s ∷ states) w = omega (arith, after-counter states (tick s w).0, tick-counter s w)

no_entry :
    (end cur : ℕ) (entries : List Entry) → end ≤ cur → All (InTime end cur) entries → entries ≡ []
no_entry end cur [] l h = refl
no_entry end cur (e ∷ es) l h = absurd (omega arith)

tick-quiet :
    (state_of : ℕ → Option StateEnum2) (end : ℕ) (w : Wheel)
    → IsBounded end w
    → end ≤ w.current_counter
    → (tick state_of w).1 ≡ []
unfolding tick drain
tick-quiet state_of end w e l = rw (
    no_entry end w.current_counter (w.slot_vec (w.current_counter % max_slot)) l (
      All-move end (next_visit w.current_counter (w.current_counter % max_slot)) w.current_counter _
        (omega arith) (e.at_slot (w.current_counter % max_slot) (omega arith))))

-- Once every entry is due to be dropped within 2560 ticks, a tick after those sends nothing, in
-- whatever states the connections are.
pub tries_end :
    (w : Wheel) (states : List (ℕ → Option StateEnum2)) (state_of : ℕ → Option StateEnum2)
    → IsBounded (w.current_counter + 2560) w
    → 2560 ≤ length states
    → (tick state_of (after states w)).1 ≡ []
tries_end w states state_of e l =
    tick-quiet state_of (w.current_counter + 2560) (after states w)
      (after-IsBounded (w.current_counter + 2560) states w e)
      (omega (arith, after-counter states w))

EndsBy-mono : (a b cur : ℕ) (slots : Slots Entry) → a ≤ b → EndsBy a cur slots → EndsBy b cur slots
EndsBy-mono a b cur slots l e = record {
  at_slot = λ i k. mono (next_visit cur i) (slots i) (e.at_slot i k);
}
  where
    mono : (t : ℕ) (entries : List Entry) → All (InTime a t) entries → All (InTime b t) entries
    mono t [] h = tt
    mono t (x ∷ xs) h = ((h.0.0, h.0.1, omega arith), mono t xs h.1)

schedule_timer_cases :
    (P : Wheel → Type 0) (header : RetransmitHeader) (seconds : ℕ) (bytes : List ℕ) (w : Wheel)
    → ((m : RetransmitHeader → Option (List ℕ)) → P (record w { time_wheel_map = m }))
    → P (record w {
      slot_vec =
          push w.slot_vec
            ((w.current_counter + u16 (seconds * 10)) % max_slot)
            (header, u16 (seconds * 10));
      time_wheel_map = put w.time_wheel_map header bytes;
    })
    → P (schedule_timer header seconds bytes w).1
unfolding schedule_timer
schedule_timer_cases P header seconds bytes w same done =
    ground (arith, same w.time_wheel_map, same (erase (put w.time_wheel_map header bytes) header))

-- A timer of 1 to 127 seconds keeps all entries due to be dropped within 2560 ticks.
pub schedule_timer-IsBounded :
    (header : RetransmitHeader) (seconds : ℕ) (bytes : List ℕ) (w : Wheel)
    → 0 < seconds
    → seconds < 128
    → IsBounded (w.current_counter + 2560) w
    → IsBounded (w.current_counter + 2560) (schedule_timer header seconds bytes w).1
schedule_timer-IsBounded header seconds bytes w p q e =
    schedule_timer_cases (IsBounded (w.current_counter + 2560)) header seconds bytes w (λ m. e)
      (record {
        at_slot = λ i l.
            let old = e.at_slot i l in
            elim (Bool-cases ((w.current_counter + u16 (seconds * 10)) % max_slot == i)) [
              | inl same ↦ rw same ((omega arith, omega arith, ground arith), old)
              | inr other ↦ rw other old
            ];
      })

-- A tick keeps that bound, which moves with the counter.
pub tick-IsBounded_now :
    (state_of : ℕ → Option StateEnum2) (w : Wheel)
    → IsBounded (w.current_counter + 2560) w
    → IsBounded ((tick state_of w).0.current_counter + 2560) (tick state_of w).0
tick-IsBounded_now state_of w e =
    EndsBy-mono (w.current_counter + 2560) ((tick state_of w).0.current_counter + 2560)
      (tick state_of w).0.current_counter (tick state_of w).0.slot_vec
      (omega (arith, tick-counter state_of w))
      (tick-IsBounded state_of (w.current_counter + 2560) w e)
