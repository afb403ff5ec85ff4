-- ===== src/Client/TimingWheel/Resends.antt =====
-- When a message of the client is sent again: `schedule`, `cancel` and `expire` of
-- lib/client-lib/src/TimingWheel2.rs, with the sizes that MqttSnClient::new asks for.
use rust_mqtt_sn.Prelude.{
  ℕ, zero, suc, ◌+◌, ◌%◌, ◌≤◌, ◌<◌, ◌≡◌, refl, false, none, some, List, [], ◌∷◌, arith, Eq, ◌==◌,
  nat_eq, put, ap, subst, ◌∙◌, eq_refl,
}
use rust_mqtt_sn.Wheel.{push}
use rust_mqtt_sn.Client.TimingWheel.{Wheel, done, schedule, cancel}
use rust_mqtt_sn.Client.TimingWheel.Entries.{IsRunning, durations}
use rust_mqtt_sn.Client.TimingWheel.Backoff.{
  Countdown, ticks, IsAt, ticks-plan, plan, left, sent_for, expire-done, ticked, emptied,
  emptied-absent,
}
use rust_mqtt_sn.Client.TimingWheel.Kept.{kept, ticks-kept}
use rust_mqtt_sn.Client.TimingWheel.Times.{positions, resends, plan_all, left_all, kept_before}

module _ {K V : Type 0} ⦃e : Eq K⦄ where
  schedule-IsAt :
      (k : K) (v : V) (d : ℕ) (w : Wheel K V)
      → IsRunning w
      → 0 < d
      → d < w.max_slot
      → ((i : ℕ) → durations k (w.slot_vec i) ≡ [])
      → (w' : Wheel K V) × (schedule k v d w ≡ done w')
        × (w'.max_slot ≡ w.max_slot)
        × IsRunning w'
        × IsAt k v (some (d, d)) w'
  unfolding schedule
  schedule-IsAt k v d w r p l fresh = (
    record w {
      slot_vec = push w.slot_vec ((w.cur_counter + d) % w.max_slot) (k, d);
      hash = put w.hash k v;
    },
    ground (arith, r.slots),
    refl,
    record { slots = r.slots; later = λ i. ground (arith, r.later i) },
    (l, p, rw (eq_refl k) refl, λ i. ground (arith, fresh i, eq_refl k)),
  )

  -- What the map holds for a key that was scheduled, after any number of ticks.
  schedule-kept :
      (k : K) (v : V) (w1 : Wheel K V) (n : ℕ)
      → IsRunning w1
      → IsAt k v (some (3, 3)) w1
      → w1.max_slot ≡ 1280
      → (w2 : Wheel K V) × (out : List (List (K × V))) × (ticks n w1 ≡ done (w2, out))
        × (w2.hash k ≡ kept v (left 1280 n (some (3, 3))))
  schedule-kept k v w1 n r at size =
      let (w2, out, run, stored) = ticks-kept n k v (some (3, 3)) w1 r at at.2 in
      (w2, out, run, stored ∙ ap (λ m. kept v (left m n (some (3, 3)))) size)

  -- A message that is scheduled on a running wheel of the client, which has no entry for its key yet,
  -- and that nobody cancels, is sent again in the 4th, 10th, 22nd, 46th, 94th, 190th, 382nd and 766th
  -- tick after that and in no other, however many ticks follow. The map holds it after every number
  -- of ticks below 1534, and after 1534 ticks or more neither the map nor a slot has its key.
  pub schedule-resends :
      (k : K) (v : V) (w : Wheel K V) (n m : ℕ)
      → IsRunning w
      → w.max_slot ≡ 1280
      → ((i : ℕ) → durations k (w.slot_vec i) ≡ [])
      → 1534 ≤ n
      → m < 1534
      → (w1 w2 w3 : Wheel K V) × (out early : List (List (K × V))) × (schedule k v 3 w ≡ done w1)
        × (ticks n w1 ≡ done (w2, out))
        × (positions 0 (sent_for k out) ≡ resends)
        × ((i : ℕ) → durations k (w2.slot_vec i) ≡ [])
        × (w2.hash k ≡ none)
        × (ticks m w1 ≡ done (w3, early))
        × (w3.hash k ≡ some v)
  schedule-resends k v w n m r size fresh l below =
      let (w1, put_in, same, r1, at1) = schedule-IsAt k v 3 w r (omega arith) (omega arith) fresh in
      let (w2, out, run, sent, r2, at2) = ticks-plan n k v (some (3, 3)) w1 r1 at1 in
      let max : w1.max_slot ≡ 1280 = same ∙ size in
      let (w2', out', run', stored) = schedule-kept k v w1 n r1 at1 max in
      let (w3, early, first, held) = schedule-kept k v w1 m r1 at1 max in
      let ended : left w1.max_slot n (some (3, 3)) ≡ none =
        ap (λ s. left s n (some (3, 3))) max ∙ left_all n l in
      let same_run : w2 ≡ w2' = cc (run, run') in
      (
        w1,
        w2,
        w3,
        out,
        early,
        put_in,
        run,
        ap (positions 0) sent
            ∙ ap (λ s. positions 0 (plan s n v (some (3, 3)))) max
            ∙ plan_all v n l,
        subst (λ c. IsAt k v c w2) ended at2,
        ap (λ x. x.hash k) same_run ∙ stored ∙ ap (kept v) (left_all n l),
        first,
        held ∙ kept_before v m below,
      )

  ticks-absent :
      (n m : ℕ) (k : K) (w : Wheel K V)
      → IsRunning w
      → w.hash k ≡ none
      → (w' : Wheel K V) × (out : List (List (K × V))) × (ticks n w ≡ done (w', out))
        × (positions m (sent_for k out) ≡ [])
        × (w'.hash k ≡ none)
  unfolding ticks positions
  ticks-absent zero m k w r absent = (w, [], refl, refl, absent)
  ticks-absent (suc n) m k w r absent =
      let (eq, r1) = expire-done w r in
      let (a, x) = emptied-absent k w absent in
      let (w', out, run, quiet, a') = ticks-absent n (m + 1) k (ticked w) r1 a in
      (w', (emptied w).1 ∷ out, rw (eq, run) refl, rw x quiet, a')

  pub cancel-IsRunning : (k : K) (w : Wheel K V) → IsRunning w → IsRunning (cancel k w).1
  unfolding cancel
  cancel-IsRunning k w r = record {
    slots = ground (arith, r.slots);
    later = λ i. ground (arith, r.later i);
  }

  cancel-absent : (k : K) (w : Wheel K V) → (cancel k w).1.hash k ≡ none
  unfolding cancel
  cancel-absent k w = ground (arith, eq_refl k)

  -- After `cancel` of a key on a running wheel, whatever entries the slots hold, no number of ticks
  -- sends anything for the key.
  pub cancel-silent :
      (n : ℕ) (k : K) (w : Wheel K V)
      → IsRunning w
      → (w' : Wheel K V) × (out : List (List (K × V))) × (ticks n (cancel k w).1 ≡ done (w', out))
        × (positions 0 (sent_for k out) ≡ [])
  cancel-silent n k w r =
      let (w', out, run, quiet, a) =
        ticks-absent n 0 k (cancel k w).1 (cancel-IsRunning k w r) (cancel-absent k w) in
      (w', out, run, quiet)

  -- `schedule` and `cancel` keep a wheel running.
  pub schedule-IsRunning :
      (k : K) (v : V) (d : ℕ) (w : Wheel K V)
      → IsRunning w
      → 0 < d
      → (w' : Wheel K V) × (schedule k v d w ≡ done w')
        × IsRunning w'
        × (w'.max_slot ≡ w.max_slot)
        × (w'.default_duration ≡ w.default_duration)
  unfolding schedule
  schedule-IsRunning k v d w r p = (
    record w {
      slot_vec = push w.slot_vec ((w.cur_counter + d) % w.max_slot) (k, d);
      hash = put w.hash k v;
    },
    ground (arith, r.slots),
    record { slots = r.slots; later = λ i. ground (arith, r.later i) },
    refl,
    refl,
  )

  cancel-other :
      (k j : K) (v : V) (c : Countdown) (w : Wheel K V)
      → (j == k) ≡ false
      → IsAt k v c w
      → IsAt k v c (cancel j w).1
  unfolding cancel
  cancel-other k j v none w other at = λ i. ground (arith, at i)
  cancel-other k j v (some (d, r)) w other (l, p, stored, at) =
      (ground arith, p, ground (arith, other, stored), λ i. ground (arith, at i))

  cancel-size : (k : K) (w : Wheel K V) → (cancel k w).1.max_slot ≡ w.max_slot
  unfolding cancel
  cancel-size k w = ground arith

  -- A message that is scheduled is sent again at all its times if only another key is cancelled.
  pub cancel-resends :
      (k j : K) (v : V) (w : Wheel K V) (n : ℕ)
      → (j == k) ≡ false
      → IsRunning w
      → w.max_slot ≡ 1280
      → ((i : ℕ) → durations k (w.slot_vec i) ≡ [])
      → 1534 ≤ n
      → (w1 w2 : Wheel K V) × (out : List (List (K × V))) × (schedule k v 3 w ≡ done w1)
        × (ticks n (cancel j w1).1 ≡ done (w2, out))
        × (positions 0 (sent_for k out) ≡ resends)
  cancel-resends k j v w n other r size fresh l =
      let (w1, put_in, same, r1, at1) = schedule-IsAt k v 3 w r (omega arith) (omega arith) fresh in
      let (w2, out, run, sent, r2, at2) =
        ticks-plan n k v (some (3, 3)) (cancel j w1).1 (cancel-IsRunning j w1 r1)
          (cancel-other k j v (some (3, 3)) w1 other at1) in
      let max : (cancel j w1).1.max_slot ≡ 1280 = cancel-size j w1 ∙ same ∙ size in
      (
        w1,
        w2,
        out,
        put_in,
        run,
        ap (positions 0) sent
            ∙ ap (λ m. positions 0 (plan m n v (some (3, 3)))) max
            ∙ plan_all v n l,
      )
