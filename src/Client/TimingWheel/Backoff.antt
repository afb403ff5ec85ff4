-- ===== src/Client/TimingWheel/Backoff.antt =====
-- The timers of `TimingWheel2` (lib/client-lib/src/TimingWheel2.rs): each key is sent again after
-- durations that double, until they reach the size of the wheel.
use rust_mqtt_sn.Prelude.{
  ℕ, Bool, zero, suc, ◌+◌, ◌*◌, ◌-◌, ◌%◌, ◌<◌, ◌≡◌, refl, false, Option, none, some, List, [], ◌∷◌,
  arith, ltb, Eq, ◌==◌, nat_eq, if◌then◌else◌, Bool-cases, inl, inr, ap, subst, ◌∙◌,
}
use rust_mqtt_sn.Wheel.{clear}
use rust_mqtt_sn.Client.TimingWheel.{Wheel, Turn, done, ◌>>=◌, expire}
use rust_mqtt_sn.Client.TimingWheel.Emptied.{drained-other, drained-own, drained-last}
use rust_mqtt_sn.Client.TimingWheel.Entries.{
  IsRunning, durations, values, drained, drain-done, mod_later, drained-counter, drained-size,
  drained-absent, drained-default,
}

-- What is left of a timer: the duration of its entry, and the ticks before the entry is met.
abbrev pub Countdown : Type 0
Countdown = Option (ℕ × ℕ)

-- One tick of a timer on a wheel of some size: whether the message is sent, and what is left.
abbrev pub count : ℕ → Countdown → Countdown
count max none = none
count max (some (d, suc r)) = some (d, r)
count max (some (d, zero)) = if ltb (d * 2) max then some (d * 2, d * 2 - 1) else none

abbrev pub fires : ℕ → Countdown → Bool
fires max none = false
fires max (some (d, suc r)) = false
fires max (some (d, zero)) = ltb (d * 2) max

-- What the ticks of a timer send.
unfoldable pub plan : {V : Type 0} → ℕ → ℕ → V → Countdown → List (List V)
plan max zero v c = []
plan max (suc n) v c = (if fires max c then v ∷ [] else []) ∷ plan max n v (count max c)

-- What the ticks of a timer leave.
unfoldable pub left : ℕ → ℕ → Countdown → Countdown
left max zero c = c
left max (suc n) c = left max n (count max c)

module _ {K V : Type 0} ⦃e : Eq K⦄ where
  -- Some ticks, one after the other, and what each of them sends.
  unfoldable pub ticks : ℕ → Wheel K V → Turn (Wheel K V × List (List (K × V)))
  ticks zero w = done (w, [])
  ticks (suc n) w = do (w1, sent) ← expire w; (w2, more) ← ticks n w1; done (w2, sent ∷ more)

  abbrev pub opened : Wheel K V → Wheel K V
  opened w = record w { slot_vec = clear w.slot_vec (w.cur_counter % w.max_slot) }

  abbrev pub emptied : Wheel K V → Wheel K V × List (K × V)
  emptied w = drained w.cur_counter (w.slot_vec (w.cur_counter % w.max_slot)) (opened w)

  -- A tick of a running wheel.
  abbrev pub ticked : Wheel K V → Wheel K V
  ticked w = record (emptied w).0 { cur_counter = (emptied w).0.cur_counter + 1 }

  pub expire-done :
      (w : Wheel K V)
      → IsRunning w
      → (expire w ≡ done (ticked w, (emptied w).1)) × IsRunning (ticked w)
  unfolding expire
  expire-done w r =
      let opened_r : IsRunning (opened w) = record {
        slots = r.slots;
        later = λ i. ground (arith, r.later i);
      } in
      let (d, r') =
        drain-done w.cur_counter (w.slot_vec (w.cur_counter % w.max_slot)) (opened w)
          (r.later (w.cur_counter % w.max_slot)) opened_r in
      (ground (arith, d, r.slots), record { slots = r'.slots; later = r'.later })

  pub emptied-absent :
      (k : K) (w : Wheel K V)
      → w.hash k ≡ none
      → ((ticked w).hash k ≡ none) × (values k (emptied w).1 ≡ [])
  emptied-absent k w absent =
      drained-absent k w.cur_counter (w.slot_vec (w.cur_counter % w.max_slot)) (opened w) absent

  pub ticked-size : (w : Wheel K V) → (ticked w).max_slot ≡ w.max_slot
  ticked-size w = drained-size w.cur_counter (w.slot_vec (w.cur_counter % w.max_slot)) (opened w)

  pub ticked-default : (w : Wheel K V) → (ticked w).default_duration ≡ w.default_duration
  ticked-default w =
      drained-default w.cur_counter (w.slot_vec (w.cur_counter % w.max_slot)) (opened w)

  -- Where the wheel stands with the message `v` of the key `k`: it has no entry for the key, or one,
  -- in the slot that is emptied after the ticks that are left.
  abbrev pub IsAt : K → V → Countdown → Wheel K V → Type 0
  IsAt k v none w = (i : ℕ) → durations k (w.slot_vec i) ≡ []
  IsAt k v (some (d, r)) w =
      (r < w.max_slot)
      × (0 < d)
      × (w.hash k ≡ some v)
      × ((i : ℕ)
          → durations k (w.slot_vec i)
            ≡ (if (w.cur_counter + r) % w.max_slot == i then d ∷ [] else []))

  -- A tick of the wheel is a tick of the timer of each key.
  pub ticked-IsAt :
      (k : K) (v : V) (c : Countdown) (w : Wheel K V)
      → IsRunning w
      → IsAt k v c w
      → IsAt k v (count w.max_slot c) (ticked w)
        × (values k (emptied w).1 ≡ (if fires w.max_slot c then v ∷ [] else []))
  ticked-IsAt k v none w r at =
      let (s, x) =
        drained-other k w.cur_counter (w.slot_vec (w.cur_counter % w.max_slot)) (opened w)
          (at (w.cur_counter % w.max_slot)) in
      (λ i. s.slots i ∙ ground (arith, at i), x)
  ticked-IsAt k v (some (d, suc n)) w r (l, p, stored, at) =
      let here = w.cur_counter % w.max_slot in
      let apart =
        mod_later w.max_slot w.cur_counter (w.cur_counter + suc n) (omega arith) (omega arith) in
      let (s, x) =
        drained-other k w.cur_counter (w.slot_vec here) (opened w)
          (ground (arith, at here, apart)) in
      let c = drained-counter w.cur_counter (w.slot_vec here) (opened w) in
      (
        (
          ground (arith, s.size),
          p,
          s.stored ∙ stored,
          λ i. ground (arith, s.slots i, s.size, c, at i, apart),
        ),
        x,
      )
  ticked-IsAt k v (some (d, zero)) w r (l, p, stored, at) =
      let here = w.cur_counter % w.max_slot in
      let one : durations k (w.slot_vec here) ≡ d ∷ [] = ground (arith, at here) in
      let c = drained-counter w.cur_counter (w.slot_vec here) (opened w) in
      elim (Bool-cases (ltb (d * 2) w.max_slot)) [
        | inl more ↦
            let (m, x) =
              drained-own k w.cur_counter d v (w.slot_vec here) (opened w) one stored more in
            rw more (
              (
                ground (arith, m.size),
                omega arith,
                m.stored ∙ stored,
                λ i. ground (arith, m.slots i, m.size, c, at i),
              ),
              x,
            )
        | inr over ↦
            let (m, x) = drained-last k w.cur_counter d (w.slot_vec here) (opened w) one over in
            rw over (λ i. m.slots i ∙ ground (arith, at i), x)
      ]

  abbrev pub sent_for : K → List (List (K × V)) → List (List V)
  sent_for k [] = []
  sent_for k (l ∷ ls) = values k l ∷ sent_for k ls

  -- In a running wheel whose timer of the key `k` is `c`, any number of ticks returns, neither
  -- panicking nor waiting for a lock; what each tick sends for `k` is what the timer says, and the
  -- timer is then what is left of it.
  pub ticks-plan :
      (n : ℕ) (k : K) (v : V) (c : Countdown) (w : Wheel K V)
      → IsRunning w
      → IsAt k v c w
      → (w' : Wheel K V) × (out : List (List (K × V))) × (ticks n w ≡ done (w', out))
        × (sent_for k out ≡ plan w.max_slot n v c)
        × IsRunning w'
        × IsAt k v (left w.max_slot n c) w'
  unfolding ticks plan left
  ticks-plan zero k v c w r at = (w, [], refl, refl, r, at)
  ticks-plan (suc n) k v c w r at =
      let (eq, r1) = expire-done w r in
      let (at1, x) = ticked-IsAt k v c w r at in
      let size = ticked-size w in
      let (w', out, run, sent, r', at') = ticks-plan n k v (count w.max_slot c) (ticked w) r1 at1 in
      (
        w',
        (emptied w).1 ∷ out,
        rw (eq, run) refl,
        ground (arith, x, sent ∙ ap (λ m. plan m n v (count w.max_slot c)) size),
        r',
        subst (λ m. IsAt k v (left m n (count w.max_slot c)) w') size at',
      )
