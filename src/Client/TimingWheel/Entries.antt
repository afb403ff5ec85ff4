-- ===== src/Client/TimingWheel/Entries.antt =====
-- The entries of a slot, and what emptying it does: `expire` of TimingWheel2.rs.
use rust_mqtt_sn.Prelude.{
  ℕ, ◌+◌, ◌*◌, ◌%◌, ◌<◌, ◌≡◌, ◌≢◌, refl, none, some, List, [], ◌∷◌, ◌++◌, arith, ltb, Eq, ◌==◌,
  nat_eq, All, erase, if◌then◌else◌, Bool-cases, inl, inr, ap, ◌∙◌, eq_of_true,
}
use rust_mqtt_sn.Wheel.{push}
use rust_mqtt_sn.Client.TimingWheel.{Wheel, done, visit, drain}

mod_shift : (m cur d : ℕ) → 0 < d → d < m → (cur + d) % m ≢ cur % m
mod_shift m cur d p q e = grind arith

pub mod_later : (m cur t : ℕ) → cur < t → t < cur + m → t % m ≢ cur % m
mod_later m cur t p q e = grind arith

-- The wheel has slots, and no entry comes back at once.
pub record IsRunning {K V : Type 0} (w : Wheel K V) : Type 0 where
  pub slots : 0 < w.max_slot
  pub later : (i : ℕ) → All (λ (entry : K × ℕ). 0 < entry.1) (w.slot_vec i)

-- The durations of the entries of a key.
abbrev pub durations : {K : Type 0} ⦃e : Eq K⦄ → K → List (K × ℕ) → List ℕ
durations k [] = []
durations k ((key, d) ∷ entries) = if key == k then d ∷ durations k entries else durations k entries

-- What was sent for a key.
abbrev pub values : {K V : Type 0} ⦃e : Eq K⦄ → K → List (K × V) → List V
values k [] = []
values k ((key, val) ∷ sent) = if key == k then val ∷ values k sent else values k sent

pub values-append :
    {K V : Type 0} ⦃e : Eq K⦄ (k : K) (xs ys : List (K × V))
    → values k (xs ++ ys) ≡ values k xs ++ values k ys
values-append k [] ys = refl
values-append k ((key, val) ∷ xs) ys = ground (arith, values-append k xs ys)

module _ {K V : Type 0} ⦃e : Eq K⦄ where
  -- What `visit` and `drain` do as long as they wait for no lock.
  abbrev pub visited : ℕ → K × ℕ → Wheel K V → Wheel K V × List (K × V)
  visited cur (key, d) w =
      if ltb (d * 2) w.max_slot
      then (elim (w.hash key) [
        | none ↦ (w, [])
        | some val ↦ (
          record w { slot_vec = push w.slot_vec ((cur + d * 2) % w.max_slot) (key, d * 2) },
          (key, val) ∷ [],
        )
      ])
      else (record w { hash = erase w.hash key }, [])

  unfoldable pub drained : ℕ → List (K × ℕ) → Wheel K V → Wheel K V × List (K × V)
  drained cur [] w = (w, [])
  drained cur (entry ∷ entries) w =
      let (w1, sent) = visited cur entry w in
      let (w2, more) = drained cur entries w1 in (w2, sent ++ more)

  visit-done :
      (cur d : ℕ) (key : K) (w : Wheel K V)
      → 0 < d
      → visit cur (key, d) w ≡ done (visited cur (key, d) w)
  unfolding visit
  visit-done cur d key w p = ground (arith, mod_shift w.max_slot cur (d * 2))

  visited-IsRunning :
      (cur d : ℕ) (key : K) (w : Wheel K V)
      → 0 < d
      → IsRunning w
      → IsRunning (visited cur (key, d) w).0
  visited-IsRunning cur d key w p r = record {
    slots = ground (arith, r.slots);
    later = λ i. ground (arith, r.later i);
  }

  pub drain-done :
      (cur : ℕ) (entries : List (K × ℕ)) (w : Wheel K V)
      → All (λ (entry : K × ℕ). 0 < entry.1) entries
      → IsRunning w
      → (drain cur entries w ≡ done (drained cur entries w)) × IsRunning (drained cur entries w).0
  unfolding drain drained
  drain-done cur [] w a r = (refl, r)
  drain-done cur ((key, d) ∷ entries) w a r =
      let (s, r') =
        drain-done cur entries (visited cur (key, d) w).0 a.1
          (visited-IsRunning cur d key w a.0 r) in
      (rw (visit-done cur d key w a.0, s) refl, r')

  visited-counter :
      (cur : ℕ) (entry : K × ℕ) (w : Wheel K V)
      → (visited cur entry w).0.cur_counter ≡ w.cur_counter
  visited-counter cur (key, d) w = ground arith

  pub drained-counter :
      (cur : ℕ) (entries : List (K × ℕ)) (w : Wheel K V)
      → (drained cur entries w).0.cur_counter ≡ w.cur_counter
  unfolding drained
  drained-counter cur [] w = refl
  drained-counter cur (entry ∷ entries) w =
      drained-counter cur entries (visited cur entry w).0 ∙ visited-counter cur entry w

  visited-size :
      (cur : ℕ) (entry : K × ℕ) (w : Wheel K V) → (visited cur entry w).0.max_slot ≡ w.max_slot
  visited-size cur (key, d) w = ground arith

  pub drained-size :
      (cur : ℕ) (entries : List (K × ℕ)) (w : Wheel K V)
      → (drained cur entries w).0.max_slot ≡ w.max_slot
  unfolding drained
  drained-size cur [] w = refl
  drained-size cur (entry ∷ entries) w =
      drained-size cur entries (visited cur entry w).0 ∙ visited-size cur entry w

  visited-default :
      (cur : ℕ) (entry : K × ℕ) (w : Wheel K V)
      → (visited cur entry w).0.default_duration ≡ w.default_duration
  visited-default cur (key, d) w = ground arith

  pub drained-default :
      (cur : ℕ) (entries : List (K × ℕ)) (w : Wheel K V)
      → (drained cur entries w).0.default_duration ≡ w.default_duration
  unfolding drained
  drained-default cur [] w = refl
  drained-default cur (entry ∷ entries) w =
      drained-default cur entries (visited cur entry w).0 ∙ visited-default cur entry w

  -- A key that the map does not hold is not sent, and the map does not come to hold it.
  visited-absent :
      (k key : K) (cur d : ℕ) (w : Wheel K V)
      → w.hash k ≡ none
      → ((visited cur (key, d) w).0.hash k ≡ none) × (values k (visited cur (key, d) w).1 ≡ [])
  visited-absent k key cur d w absent = elim (Bool-cases (key == k)) [
    | inl own ↦
        let same : w.hash key ≡ none = ap w.hash (eq_of_true key k own) ∙ absent in
        (ground (arith, own, same), ground (arith, own, same))
    | inr other ↦ (ground (arith, other, absent), ground (arith, other))
  ]

  pub drained-absent :
      (k : K) (cur : ℕ) (entries : List (K × ℕ)) (w : Wheel K V)
      → w.hash k ≡ none
      → ((drained cur entries w).0.hash k ≡ none) × (values k (drained cur entries w).1 ≡ [])
  unfolding drained
  drained-absent k cur [] w absent = (absent, refl)
  drained-absent k cur ((key, d) ∷ entries) w absent =
      let w1 = (visited cur (key, d) w).0 in
      let (a, x) = visited-absent k key cur d w absent in
      let (a', y) = drained-absent k cur entries w1 a in
      (
        a',
        values-append k (visited cur (key, d) w).1 (drained cur entries w1).1
            ∙ ground (arith, x, y),
      )
