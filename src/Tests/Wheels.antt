-- ===== src/Tests/Wheels.antt =====
-- The properties of the two wheels at concrete wheels.
use rust_mqtt_sn.Prelude.{
  ℕ, zero, suc, ◌+◌, ◌*◌, ◌≡◌, ◌↔◌, refl, true, Option, none, some, List, [], ◌∷◌, arith, ◌==◌,
  nat_eq, elem, length,
}
use rust_mqtt_sn.Prelude.Bytes.{u16}
use rust_mqtt_sn.Connection.{StateEnum2, active}
use rust_mqtt_sn.Wheel.{Locks}
use rust_mqtt_sn.KeepAlive
use rust_mqtt_sn.KeepAlive.{KeepAliveVal, deadline}
use rust_mqtt_sn.KeepAlive.Deadlines.{IsCovered, tick_exact, schedule-IsCovered}
use rust_mqtt_sn.KeepAlive.Silence
use rust_mqtt_sn.KeepAlive.Silence.{
  schedule-silent, reschedule-silent, schedule_wraps_early, init-IsCovered,
}
use rust_mqtt_sn.Retransmit
use rust_mqtt_sn.Retransmit.{RetransmitHeader}
use rust_mqtt_sn.Retransmit.Pending.{cancel_timer-map}
use rust_mqtt_sn.Retransmit.Attempts
use rust_mqtt_sn.Retransmit.Attempts.{
  IsBounded, tries_end, schedule_timer-IsBounded, tick-IsBounded_now,
}

abbrev free : Locks
free = record { map_free = true; slots_free = true; slot_free = true }

abbrev idle : KeepAlive.Wheel
idle = KeepAlive.init free

-- A wheel that waits two seconds for the address 7.
abbrev waiting : KeepAlive.Wheel
waiting = (KeepAlive.schedule 7 2 idle).1

waiting-IsCovered : IsCovered waiting
waiting-IsCovered = schedule-IsCovered 7 2 idle (init-IsCovered free)

tick_exact_example : (elem 7 (KeepAlive.tick waiting).1 ≡ true) ↔ (
    (v : KeepAliveVal) × (waiting.time_wheel_map 7 ≡ some v)
    × (deadline v ≡ waiting.current_counter))
tick_exact_example = tick_exact waiting 7 waiting-IsCovered

schedule-IsCovered_example : IsCovered (KeepAlive.schedule 7 2 idle).1
schedule-IsCovered_example = schedule-IsCovered 7 2 idle (init-IsCovered free)

schedule-silent_example :
    elem 7 (KeepAlive.tick (Silence.after 20 (KeepAlive.schedule 7 2 idle).1)).1
    ≡ (20 == u16 (2 * 10))
unfolding KeepAlive.schedule
schedule-silent_example = schedule-silent idle 7 2 (init-IsCovered free) refl 20 (omega arith)

abbrev quiet : Retransmit.Wheel
quiet = Retransmit.init free

abbrev puback_of_7 : RetransmitHeader
puback_of_7 = record { addr = 7; msg_type = 13; topic_id = 0; msg_id = 1 }

-- A wheel that waits for a PUBACK of the address 7.
abbrev pending : Retransmit.Wheel
pending = (Retransmit.schedule_timer puback_of_7 1 (9 ∷ []) quiet).1

abbrev all_active : ℕ → Option StateEnum2
all_active addr = some active

quiet-IsBounded : IsBounded (quiet.current_counter + 2560) quiet
quiet-IsBounded = record { at_slot = λ i l. tt }

pending-IsBounded : IsBounded (quiet.current_counter + 2560) pending
pending-IsBounded =
    schedule_timer-IsBounded puback_of_7 1 (9 ∷ []) quiet (omega arith) (omega arith)
      quiet-IsBounded

cancel_timer-map_example :
    (Retransmit.cancel_timer puback_of_7 pending).1.time_wheel_map puback_of_7 ≡ none
unfolding Retransmit.schedule_timer Retransmit.cancel_timer
cancel_timer-map_example = cancel_timer-map puback_of_7 pending refl

abbrev states : ℕ → List (ℕ → Option StateEnum2)
states zero = []
states (suc n) = all_active ∷ states n

length-states : (n : ℕ) → length (states n) ≡ n
length-states zero = refl
length-states (suc n) = omega (arith, length-states n)

tries_end_example : (Retransmit.tick all_active (Attempts.after (states 2560) pending)).1 ≡ []
unfolding Retransmit.schedule_timer
tries_end_example =
    tries_end pending (states 2560) all_active pending-IsBounded (omega (arith, length-states 2560))

tick-IsBounded_now_example :
    IsBounded
      ((Retransmit.tick all_active quiet).0.current_counter + 2560)
      (Retransmit.tick all_active quiet).0
tick-IsBounded_now_example = tick-IsBounded_now all_active quiet quiet-IsBounded
