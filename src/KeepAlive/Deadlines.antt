-- ===== src/KeepAlive/Deadlines.antt =====
-- When the keep-alive wheel gives an address up: lib/broker-lib/src/keep_alive.rs.
use rust_mqtt_sn.Prelude.{
  ℕ, ◌+◌, ◌*◌, ◌%◌, ◌≤◌, ◌<◌, ◌≡◌, ◌↔◌, true, false, ◌&&◌, none, some, List, arith, ◌==◌, nat_eq,
  elem, if◌then◌else◌, eq_of_true, Bool-cases, Option-cases, ap, inl, inr, put, erase,
}
use rust_mqtt_sn.Prelude.Bytes.{u16}
use rust_mqtt_sn.Wheel.{max_slot, push, clear}
use rust_mqtt_sn.KeepAlive.{
  Wheel, KeepAliveVal, deadline, next_index, tick, schedule, reschedule, cancel,
}
use rust_mqtt_sn.KeepAlive.Drain.{
  is_due, drain-map, drain-expired, drain-keeps, drain-moves, drain-counter,
}

-- Every address of the map is met in time: some slot that is emptied between now and its deadline
-- holds it, no deadline has passed, and no address was heard of in the future.
pub record IsCovered (w : Wheel) : Type 0 where
  pub heard :
      (k : ℕ) (v : KeepAliveVal)
      → w.time_wheel_map k ≡ some v
      → v.latest_counter ≤ w.current_counter
  pub at_key :
      (k : ℕ) (v : KeepAliveVal)
      → w.time_wheel_map k ≡ some v
      → (t : ℕ) × (w.current_counter ≤ t)
        × (t ≤ deadline v)
        × (elem k (w.slot_vec (t % max_slot)) ≡ true)

-- The wheel while a slot is emptied.
abbrev opened : Wheel → Wheel
opened w = record w {
  current_counter = w.current_counter + 1;
  slot_vec = clear w.slot_vec (w.current_counter % max_slot);
}

-- The slot that the next tick empties.
abbrev pub current : Wheel → List ℕ
current w = w.slot_vec (w.current_counter % max_slot)

module _ (k : ℕ) (w : Wheel) where
  pub tick-map : (tick w).0.time_wheel_map k ≡ (
      if elem k (current w) && is_due w.current_counter (w.time_wheel_map k)
      then none
      else w.time_wheel_map k)
  unfolding tick
  tick-map = drain-map w.current_counter k (current w) (opened w)

  pub tick-expired :
      elem k (tick w).1 ≡ (elem k (current w) && is_due w.current_counter (w.time_wheel_map k))
  unfolding tick
  tick-expired = drain-expired w.current_counter k (current w) (opened w)

pub tick-counter : (w : Wheel) → (tick w).0.current_counter ≡ w.current_counter + 1
unfolding tick
tick-counter w = drain-counter w.current_counter (current w) (opened w)

-- An entry of a slot that the tick does not empty.
tick-keeps :
    (k t : ℕ) (w : Wheel)
    → (w.current_counter % max_slot == t % max_slot) ≡ false
    → elem k (w.slot_vec (t % max_slot)) ≡ true
    → elem k ((tick w).0.slot_vec (t % max_slot)) ≡ true
unfolding tick
tick-keeps k t w e h =
    drain-keeps w.current_counter k (t % max_slot) (current w) (opened w) (ground arith)

tick-moves :
    (k : ℕ) (v : KeepAliveVal) (w : Wheel)
    → elem k (current w) ≡ true
    → w.time_wheel_map k ≡ some v
    → w.current_counter < deadline v
    → elem k ((tick w).0.slot_vec (next_index (deadline v) (w.current_counter % max_slot))) ≡ true
unfolding tick
tick-moves k v w m e h = drain-moves w.current_counter k v (current w) (opened w) m e h

-- Such an address is met again by its deadline.
tick_moves_in_time :
    (k : ℕ) (v : KeepAliveVal) (w : Wheel)
    → elem k (current w) ≡ true
    → w.time_wheel_map k ≡ some v
    → w.current_counter < deadline v
    → (t : ℕ) × (w.current_counter + 1 ≤ t)
      × (t ≤ deadline v)
      × (elem k ((tick w).0.slot_vec (t % max_slot)) ≡ true)
tick_moves_in_time k v w m e h =
    elim (Bool-cases (deadline v % max_slot == w.current_counter % max_slot)) [
      | inl same ↦
          let to : (w.current_counter % max_slot + 1) % max_slot
              ≡ (w.current_counter + 1) % max_slot =
            omega arith in
          (
            w.current_counter + 1,
            omega arith,
            omega arith,
            rw (← to) (rw same at (tick-moves k v w m e h)),
          )
      | inr other ↦ (deadline v, omega arith, omega arith, rw other at (tick-moves k v w m e h))
    ]

-- In a covered wheel, the tick of time `c` gives an address up exactly if its deadline is `c`.
pub tick_exact :
    (w : Wheel) (k : ℕ)
    → IsCovered w
    → (elem k (tick w).1 ≡ true)
      ↔ ((v : KeepAliveVal) × (w.time_wheel_map k ≡ some v) × (deadline v ≡ w.current_counter))
tick_exact w k c = (gone, due)
  where
    gone :
        elem k (tick w).1 ≡ true
        → (v : KeepAliveVal) × (w.time_wheel_map k ≡ some v) × (deadline v ≡ w.current_counter)
    gone h = elim (Option-cases (w.time_wheel_map k)) [
      | inl absent ↦ ground (arith, tick-expired k w)
      | inr (v, e) ↦
          let (t, now, before, m) = c.at_key k v e in (v, e, ground (arith, tick-expired k w))
    ]

    due :
        ((v : KeepAliveVal) × (w.time_wheel_map k ≡ some v) × (deadline v ≡ w.current_counter))
        → elem k (tick w).1 ≡ true
    due (v, e, d) =
        let (t, now, before, m) = c.at_key k v e in
        let same : t ≡ w.current_counter = omega arith in
        ground (arith, tick-expired k w, ap (λ n. elem k (w.slot_vec (n % max_slot))) same)

-- In a covered wheel, a tick keeps every address covered that it does not give up.
pub tick-IsCovered : (w : Wheel) → IsCovered w → IsCovered (tick w).0
tick-IsCovered w c = record {
  heard = λ k v e. ground (arith, tick-map k w, tick-counter w, c.heard k v);
  at_key = covered;
}
  where
    covered :
        (k : ℕ) (v : KeepAliveVal)
        → (tick w).0.time_wheel_map k ≡ some v
        → (t : ℕ) × ((tick w).0.current_counter ≤ t)
          × (t ≤ deadline v)
          × (elem k ((tick w).0.slot_vec (t % max_slot)) ≡ true)
    covered k v e' =
        let e : w.time_wheel_map k ≡ some v = ground (arith, tick-map k w) in
        let (t, now, before, m) = c.at_key k v e in
        elim (Bool-cases (w.current_counter % max_slot == t % max_slot)) [
          | inl same ↦
              let here : elem k (current w) ≡ true = ground (
                arith,
                ap (λ n. elem k (w.slot_vec n))
                    (eq_of_true (w.current_counter % max_slot) (t % max_slot) same),
              ) in
              let early : w.current_counter < deadline v = ground (arith, tick-map k w) in
              let (t', later, by, m') = tick_moves_in_time k v w here e early in
              (t', ground (arith, tick-counter w), by, m')
          | inr other ↦ (t, ground (arith, tick-counter w), before, tick-keeps k t w other m)
        ]

-- The wheel that `schedule` leaves when it succeeds.
abbrev scheduled : ℕ → ℕ → Wheel → Wheel
scheduled k d w = record w {
  slot_vec = push w.slot_vec ((w.current_counter + u16 (d * 10)) % max_slot) k;
  time_wheel_map =
      put w.time_wheel_map k
        (record { latest_counter = w.current_counter; conn_duration = u16 (d * 10) });
}

schedule_cases :
    (P : Wheel → Type 0) (k d : ℕ) (w : Wheel)
    → P w
    → P (record w { time_wheel_map = erase (scheduled k d w).time_wheel_map k })
    → P (scheduled k d w)
    → P (schedule k d w).1
unfolding schedule
schedule_cases P k d w locked unwound done = ground arith

scheduled-IsCovered : (k d : ℕ) (w : Wheel) → IsCovered w → IsCovered (scheduled k d w)
scheduled-IsCovered k d w c = record {
  heard = λ j v e. ground (arith, c.heard j v);
  at_key = λ j v e. elim (Bool-cases (k == j)) [
    | inl same ↦ (deadline v, ground arith, omega arith, ground arith)
    | inr other ↦
        let (t, now, before, m) = c.at_key j v (rw other at e) in (t, now, before, ground arith)
  ];
}

-- `schedule` keeps the addresses covered, whether it succeeds or is undone.
pub schedule-IsCovered : (k d : ℕ) (w : Wheel) → IsCovered w → IsCovered (schedule k d w).1
schedule-IsCovered k d w c =
    schedule_cases IsCovered k d w c
      (record {
        heard = λ j v e. c.heard j v (ground arith);
        at_key = λ j v e. c.at_key j v (ground arith);
      })
      (scheduled-IsCovered k d w c)

reschedule_cases :
    (P : Wheel → Type 0) (k : ℕ) (w : Wheel)
    → P w
    → ((v : KeepAliveVal)
        → w.time_wheel_map k ≡ some v
        → P (record w {
          time_wheel_map = put w.time_wheel_map k (record v { latest_counter = w.current_counter });
        }))
    → P (reschedule k w).1
unfolding reschedule
reschedule_cases P k w same moved = elim (Option-cases (w.time_wheel_map k)) [
  | inl e ↦ ground arith
  | inr (v, e) ↦ ground (arith, moved v e)
]

-- `reschedule` keeps a covered wheel covered, whether it returns `Ok` or `Err`.
pub reschedule-IsCovered : (k : ℕ) (w : Wheel) → IsCovered w → IsCovered (reschedule k w).1
reschedule-IsCovered k w c = reschedule_cases IsCovered k w c λ v0 e0. record {
  heard = λ j v e. ground (arith, c.heard j v);
  at_key = λ j v e. elim (Bool-cases (k == j)) [
    | inl same ↦
        let (t, now, before, m) = c.at_key k v0 e0 in
        let past = c.heard k v0 e0 in (t, now, ground arith, ground arith)
    | inr other ↦ c.at_key j v (rw other at e)
  ];
}

-- `cancel` keeps them covered.
pub cancel-IsCovered : (k : ℕ) (w : Wheel) → IsCovered w → IsCovered (cancel k w).1
unfolding cancel
cancel-IsCovered k w c = record {
  heard = λ j v e. ground (arith, c.heard j v);
  at_key = λ j v e. ground (arith, c.at_key j v);
}
