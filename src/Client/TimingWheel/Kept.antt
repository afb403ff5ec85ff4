-- ===== src/Client/TimingWheel/Kept.antt =====
-- How long the wheel of the client keeps a message: the map of `TimingWheel2` in
-- lib/client-lib/src/TimingWheel2.rs, next to the timer of the key.
use rust_mqtt_sn.Prelude.{
  ℕ, zero, suc, ◌*◌, ◌%◌, ◌≡◌, refl, Option, none, some, List, [], ◌∷◌, arith, ltb, Eq, Bool-cases,
  inl, inr, ap, ◌∙◌,
}
use rust_mqtt_sn.Client.TimingWheel.{Wheel, done}
use rust_mqtt_sn.Client.TimingWheel.Emptied.{drained-own, drained-last}
use rust_mqtt_sn.Client.TimingWheel.Entries.{IsRunning, durations}
use rust_mqtt_sn.Client.TimingWheel.Backoff.{
  Countdown, count, left, ticks, ticked, emptied, opened, IsAt, ticked-IsAt, ticked-size,
  expire-done, emptied-absent,
}

-- What the map holds for the key of a timer whose message is `v`.
abbrev pub kept : {V : Type 0} → V → Countdown → Option V
kept v none = none
kept v (some c) = some v

module _ {K V : Type 0} ⦃e : Eq K⦄ where
  ticked-kept :
      (k : K) (v : V) (c : Countdown) (w : Wheel K V)
      → IsRunning w
      → IsAt k v c w
      → w.hash k ≡ kept v c
      → (ticked w).hash k ≡ kept v (count w.max_slot c)
  ticked-kept k v none w r at stored = (emptied-absent k w stored).0
  ticked-kept k v (some (d, suc n)) w r at stored = (ticked-IsAt k v (some (d, suc n)) w r at).0.2
  ticked-kept k v (some (d, zero)) w r (l, p, s, at) stored =
      let here = w.cur_counter % w.max_slot in
      let one : durations k (w.slot_vec here) ≡ d ∷ [] = ground (arith, at here) in
      elim (Bool-cases (ltb (d * 2) w.max_slot)) [
        | inl more ↦
            let (m, x) =
              drained-own k w.cur_counter d v (w.slot_vec here) (opened w) one stored more in
            rw more (m.stored ∙ stored)
        | inr over ↦
            let (m, x) = drained-last k w.cur_counter d (w.slot_vec here) (opened w) one over in
            rw over m.stored
      ]

  -- The map holds the message of a timer as long as the timer runs, and no longer.
  pub ticks-kept :
      (n : ℕ) (k : K) (v : V) (c : Countdown) (w : Wheel K V)
      → IsRunning w
      → IsAt k v c w
      → w.hash k ≡ kept v c
      → (w' : Wheel K V) × (out : List (List (K × V))) × (ticks n w ≡ done (w', out))
        × (w'.hash k ≡ kept v (left w.max_slot n c))
  unfolding ticks left
  ticks-kept zero k v c w r at stored = (w, [], refl, stored)
  ticks-kept (suc n) k v c w r at stored =
      let (eq, r1) = expire-done w r in
      let (at1, x) = ticked-IsAt k v c w r at in
      let (w', out, run, stored') =
        ticks-kept n k v (count w.max_slot c) (ticked w) r1 at1 (ticked-kept k v c w r at stored) in
      (
        w',
        (emptied w).1 ∷ out,
        rw (eq, run) refl,
        stored' ∙ ap (λ m. kept v (left m n (count w.max_slot c))) (ticked-size w),
      )
