-- ===== src/KeepAlive.antt =====
-- The keep-alive wheel: lib/broker-lib/src/keep_alive.rs. A tick returns the addresses whose time
-- ran out, in the order in which its loop meets them; `Timers` does with each what the loop
-- does. The atomic 64-bit counter is not modelled as wrapping.
pub mod Drain
pub mod Deadlines
pub mod Silence
use rust_mqtt_sn.Prelude.{
  ℕ, ◌+◌, ◌*◌, ◌%◌, Bool, ◌&&◌, Option, none, some, List, [], ◌∷◌, ◌++◌, ltb, ◌==◌, nat_eq, put,
  erase, empty_map, if◌then◌else◌,
}
use rust_mqtt_sn.Prelude.Bytes.{u16}
use rust_mqtt_sn.Outcome.{Outcome, ok, err, locked, not_found}
use rust_mqtt_sn.Wheel.{Locks, Slots, max_slot, no_slots, push, clear}

pub record KeepAliveVal : Type 0 where
  pub latest_counter : ℕ
  pub conn_duration : ℕ

pub record Wheel : Type 0 where
  pub current_counter : ℕ
  pub slot_vec : Slots ℕ
  pub time_wheel_map : ℕ → Option KeepAliveVal
  pub locks : Locks

abbrev pub init : Locks → Wheel
init locks = record {
  current_counter = 0;
  slot_vec = no_slots;
  time_wheel_map = empty_map;
  locks = locks;
}

-- The branches that take the inserted key out of the map again.
unwind : ℕ → Wheel → Outcome (Unit {0}) × Wheel
unwind key w = elim (w.time_wheel_map key) [
  | none ↦ (err not_found, w)
  | some v ↦ (err locked, record w { time_wheel_map = erase w.time_wheel_map key })
]

-- The multiplication is that of `u16`, which wraps in a release build.
unfoldable pub schedule : ℕ → ℕ → Wheel → Outcome (Unit {0}) × Wheel
unfolding unwind
schedule key duration w =
    let conn_duration = u16 (duration * 10) in
    let index = (w.current_counter + conn_duration) % max_slot in
    let val : KeepAliveVal = record {
      latest_counter = w.current_counter;
      conn_duration = conn_duration;
    } in
    let w' = record w { time_wheel_map = put w.time_wheel_map key val } in
    if w.locks.map_free
    then (if w.locks.slots_free && w.locks.slot_free
        then (ok tt, record w' { slot_vec = push w'.slot_vec index key })
        else unwind key w')
    else (err locked, w)

unfoldable pub cancel : ℕ → Wheel → Outcome (Unit {0}) × Wheel
cancel key w =
    if w.locks.map_free
    then (elim (w.time_wheel_map key) [
      | none ↦ (err not_found, w)
      | some v ↦ (ok tt, record w { time_wheel_map = erase w.time_wheel_map key })
    ])
    else (err locked, w)

unfoldable pub reschedule : ℕ → Wheel → Outcome (Unit {0}) × Wheel
reschedule key w =
    if w.locks.map_free
    then (elim (w.time_wheel_map key) [
      | none ↦ (err not_found, w)
      | some v ↦ (
        ok tt,
        record w {
          time_wheel_map =
              put w.time_wheel_map key (record v { latest_counter = w.current_counter });
        },
      )
    ])
    else (err locked, w)

-- `new_counter` of the loop.
abbrev pub deadline : KeepAliveVal → ℕ
deadline v = v.latest_counter + v.conn_duration

-- The slot of an entry that has not run out: never the slot that is being emptied.
abbrev pub next_index : ℕ → ℕ → ℕ
next_index counter index =
    if counter % max_slot == index then (index + 1) % max_slot else counter % max_slot

-- One round of the `while let` loop of `run`.
pub visit : ℕ → ℕ → Wheel → Wheel × List ℕ
visit cur key w = elim (w.time_wheel_map key) [
  | none ↦ (w, [])
  | some v ↦
      if ltb cur (deadline v)
      then (
        record w { slot_vec = push w.slot_vec (next_index (deadline v) (cur % max_slot)) key },
        [],
      )
      else (record w { time_wheel_map = erase w.time_wheel_map key }, key ∷ [])
]

pub drain : ℕ → List ℕ → Wheel → Wheel × List ℕ
drain cur [] w = (w, [])
drain cur (key ∷ keys) w =
    let (w1, gone) = visit cur key w in let (w2, more) = drain cur keys w1 in (w2, gone ++ more)

-- One round of the `loop` of `run`.
unfoldable pub tick : Wheel → Wheel × List ℕ
unfolding drain visit
tick w =
    let cur = w.current_counter in
    let index = cur % max_slot in
    drain cur (w.slot_vec index)
      (record w { current_counter = cur + 1; slot_vec = clear w.slot_vec index })
