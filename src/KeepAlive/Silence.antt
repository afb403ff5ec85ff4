-- ===== src/KeepAlive/Silence.antt =====
-- A client that falls silent, and one that speaks: lib/broker-lib/src/keep_alive.rs.
use rust_mqtt_sn.Prelude.{
  ℕ, zero, suc, ◌+◌, ◌*◌, ◌≤◌, ◌<◌, ◌≡◌, true, some, arith, ◌==◌, nat_eq, elem,
}
use rust_mqtt_sn.Prelude.Bytes.{u16}
use rust_mqtt_sn.Outcome.{ok}
use rust_mqtt_sn.Wheel.{Locks}
use rust_mqtt_sn.KeepAlive.{Wheel, KeepAliveVal, init, deadline, tick, schedule, reschedule}
use rust_mqtt_sn.KeepAlive.Deadlines.{
  IsCovered, tick-IsCovered, schedule-IsCovered, reschedule-IsCovered, tick-map, tick-expired,
  tick-counter, tick_exact,
}

-- The wheel after some ticks with nothing in between.
pub after : ℕ → Wheel → Wheel
after zero w = w
after (suc n) w = after n (tick w).0

record IsHeld (k : ℕ) (v : KeepAliveVal) (w : Wheel) : Type 0 where
  covered : IsCovered w
  held : w.time_wheel_map k ≡ some v

tick-IsHeld :
    (k : ℕ) (v : KeepAliveVal) (w : Wheel)
    → w.current_counter < deadline v
    → IsHeld k v w
    → IsHeld k v (tick w).0
tick-IsHeld k v w early h = record {
  covered = tick-IsCovered w h.covered;
  held = ground (arith, tick-map k w, h.held);
}

tick_when :
    (k : ℕ) (v : KeepAliveVal) (w : Wheel)
    → IsHeld k v w
    → elem k (tick w).1 ≡ (deadline v == w.current_counter)
tick_when k v w h =
    let (gone, due) = tick_exact w k h.covered in
    ground (arith, tick-expired k w, h.held, due, gone, h.covered.at_key k v h.held)

silent :
    (m n k : ℕ) (v : KeepAliveVal) (w : Wheel)
    → IsHeld k v w
    → deadline v ≡ w.current_counter + n
    → m ≤ n
    → elem k (tick (after m w)).1 ≡ (m == n)
unfolding after
silent zero n k v w h d l = ground (arith, tick_when k v w h)
silent (suc m) zero k v w h d l = absurd (omega arith)
silent (suc m) (suc n) k v w h d l = ground (
  arith,
  silent m n k v (tick w).0 (tick-IsHeld k v w (omega arith) h) (omega (arith, tick-counter w))
      (omega arith),
)

module _ (w : Wheel) (k d : ℕ) (covered : IsCovered w) (done : (schedule k d w).0 ≡ ok tt) where
  -- If a client is scheduled for `d` in a covered wheel with the result `Ok`, and is never heard of
  -- again, it is given up at the tick that comes `d * 10`, as a `u16`, after the present one, and at
  -- none before.
  pub schedule-silent :
      (m : ℕ)
      → m ≤ u16 (d * 10)
      → elem k (tick (after m (schedule k d w).1)).1 ≡ (m == u16 (d * 10))
  schedule-silent m l =
      silent m (u16 (d * 10)) k
        (record { latest_counter = w.current_counter; conn_duration = u16 (d * 10) })
        (schedule k d w).1
        (record {
          covered = schedule-IsCovered k d w covered;
          held = unfold schedule in ground arith;
        })
        (unfold schedule in ground arith) l

  -- A client that is scheduled in a covered wheel with the result `Ok` for 6554 or more, and is
  -- never heard of again, is given up before `d * 10` ticks, since the product wraps.
  pub schedule_wraps_early :
      6553 < d → (m : ℕ) × (m < d * 10) × (elem k (tick (after m (schedule k d w).1)).1 ≡ true)
  schedule_wraps_early h =
      (u16 (d * 10), omega arith, ground (arith, schedule-silent (u16 (d * 10)) (omega arith)))

-- In a covered wheel, a client that is heard of, with the result `Ok` of `reschedule`, is given up
-- as long after that as its keep-alive says if it stays silent from then on, and not before.
pub reschedule-silent :
    (w : Wheel) (k m : ℕ) (v : KeepAliveVal)
    → IsCovered w
    → w.time_wheel_map k ≡ some v
    → (reschedule k w).0 ≡ ok tt
    → m ≤ v.conn_duration
    → elem k (tick (after m (reschedule k w).1)).1 ≡ (m == v.conn_duration)
reschedule-silent w k m v covered e done l =
    silent m v.conn_duration k (record v { latest_counter = w.current_counter }) (reschedule k w).1
      (record {
        covered = reschedule-IsCovered k w covered;
        held = unfold reschedule in ground arith;
      })
      (unfold reschedule in ground arith) l

-- An initialised wheel.
pub init-IsCovered : (locks : Locks) → IsCovered (init locks)
init-IsCovered locks = record { heard = λ k v e. cc; at_key = λ k v e. cc }
