-- ===== src/Retransmit.antt =====
-- The retransmission wheel: lib/broker-lib/src/retransmit.rs. A tick reads the state of each
-- connection and returns the messages that it sends again, in order.
pub mod Pending
pub mod Attempts
use rust_mqtt_sn.Prelude.{
  ℕ, ◌+◌, ◌*◌, ◌%◌, Bool, true, false, ◌&&◌, Option, none, some, List, [], ◌∷◌, ◌++◌, ltb, Eq, ◌==◌,
  nat_eq, put, erase, empty_map, if◌then◌else◌, ◌≡◌, ◌↔◌, nat_beq_iff, arith,
}
use rust_mqtt_sn.Prelude.Bytes.{u16}
use rust_mqtt_sn.Outcome.{Outcome, ok, err, locked, not_found}
use rust_mqtt_sn.Wheel.{Locks, Slots, max_slot, no_slots, push, clear}
use rust_mqtt_sn.Connection.{StateEnum2, active}

pub record RetransmitHeader : Type 0 where
  pub addr : ℕ
  pub msg_type : ℕ
  pub topic_id : ℕ
  pub msg_id : ℕ

abbrev pub header_beq : RetransmitHeader → RetransmitHeader → Bool
header_beq a b =
    a.addr == b.addr && a.msg_type == b.msg_type && a.topic_id == b.topic_id && a.msg_id == b.msg_id

pub header_beq_iff : (a b : RetransmitHeader) → (header_beq a b ≡ true) ↔ (a ≡ b)
header_beq_iff a b = ground (
  arith,
  nat_beq_iff a.addr b.addr,
  nat_beq_iff a.msg_type b.msg_type,
  nat_beq_iff a.topic_id b.topic_id,
  nat_beq_iff a.msg_id b.msg_id,
)

instance abbrev pub header_eq : Eq RetransmitHeader
header_eq = record { test = header_beq; test_iff = header_beq_iff }

-- An entry of a slot: the header and the duration after which it was put there.
abbrev pub Entry : Type 0
Entry = RetransmitHeader × ℕ

pub record Wheel : Type 0 where
  pub current_counter : ℕ
  pub slot_vec : Slots Entry
  pub time_wheel_map : RetransmitHeader → Option (List ℕ)
  pub locks : Locks

abbrev pub init : Locks → Wheel
init locks = record {
  current_counter = 0;
  slot_vec = no_slots;
  time_wheel_map = empty_map;
  locks = locks;
}

-- The branches that take the inserted header out of the map again.
unwind : RetransmitHeader → Wheel → Outcome (Unit {0}) × Wheel
unwind header w = elim (w.time_wheel_map header) [
  | none ↦ (err not_found, w)
  | some bytes ↦ (err locked, record w { time_wheel_map = erase w.time_wheel_map header })
]

-- The multiplication is that of `u16`, which wraps in a release build.
unfoldable pub schedule_timer : RetransmitHeader → ℕ → List ℕ → Wheel → Outcome (Unit {0}) × Wheel
unfolding unwind
schedule_timer header seconds bytes w =
    let duration = u16 (seconds * 10) in
    let index = (w.current_counter + duration) % max_slot in
    let w' = record w { time_wheel_map = put w.time_wheel_map header bytes } in
    if w.locks.map_free
    then (if w.locks.slots_free && w.locks.slot_free
        then (ok tt, record w' { slot_vec = push w'.slot_vec index (header, duration) })
        else unwind header w')
    else (err locked, w)

unfoldable pub cancel_timer : RetransmitHeader → Wheel → Outcome (Unit {0}) × Wheel
cancel_timer header w =
    if w.locks.map_free
    then (elim (w.time_wheel_map header) [
      | none ↦ (err not_found, w)
      | some bytes ↦ (ok tt, record w { time_wheel_map = erase w.time_wheel_map header })
    ])
    else (err locked, w)

abbrev pub is_active : Option StateEnum2 → Bool
is_active (some active) = true
is_active (some s) = false
is_active none = false

-- The slot of an entry: never the slot that is being emptied.
abbrev pub next_index : ℕ → ℕ → ℕ
next_index counter index =
    if counter % max_slot == index then (index + 1) % max_slot else counter % max_slot

-- `Connection::get_state`, at the time of the tick.
module _ (state_of : ℕ → Option StateEnum2) where
  -- A header whose connection is not active leaves the map, and the loop goes on with it.
  abbrev pub settle : RetransmitHeader → Wheel → Wheel
  settle header w =
      if is_active (state_of header.addr)
      then w
      else record w { time_wheel_map = erase w.time_wheel_map header }

  -- One round of the `while let` loop of `run`.
  pub visit : ℕ → Entry → Wheel → Wheel × List (ℕ × List ℕ)
  visit cur (header, duration) w0 =
      let w = settle header w0 in
      let doubled = u16 (duration * 2) in
      if ltb doubled max_slot
      then (elim (w.time_wheel_map header) [
        | none ↦ (w, [])
        | some bytes ↦ (
          record w {
            slot_vec =
                push w.slot_vec (next_index (cur + doubled) (cur % max_slot)) (header, doubled);
          },
          (header.addr, bytes) ∷ [],
        )
      ])
      else (record w { time_wheel_map = erase w.time_wheel_map header }, [])

  pub drain : ℕ → List Entry → Wheel → Wheel × List (ℕ × List ℕ)
  drain cur [] w = (w, [])
  drain cur (entry ∷ entries) w =
      let (w1, sent) = visit cur entry w in
      let (w2, more) = drain cur entries w1 in (w2, sent ++ more)

  -- One round of the `loop` of `run`.
  unfoldable pub tick : Wheel → Wheel × List (ℕ × List ℕ)
  unfolding drain visit
  tick w =
      let cur = w.current_counter in
      let index = cur % max_slot in
      drain cur (w.slot_vec index)
        (record w { current_counter = cur + 1; slot_vec = clear w.slot_vec index })
