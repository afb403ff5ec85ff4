-- ===== src/KeepAlive/Drain.antt =====
-- What emptying one slot does to each address: the loop of `run` in lib/broker-lib/src/keep_alive.rs.
use rust_mqtt_sn.Prelude.{
  ℕ, ◌%◌, ◌<◌, ◌≡◌, refl, Bool, true, false, ◌&&◌, Option, none, some, List, [], ◌∷◌, ◌++◌, arith,
  leb, ◌==◌, nat_eq, elem, if◌then◌else◌, Bool-cases, inl, inr, eq_of_true, ◌∙◌,
}
use rust_mqtt_sn.Wheel.{max_slot}
use rust_mqtt_sn.KeepAlive.{Wheel, KeepAliveVal, deadline, next_index, visit, drain}

-- Whether what the map holds for an address has run out.
abbrev pub is_due : ℕ → Option KeepAliveVal → Bool
is_due cur none = false
is_due cur (some v) = leb (deadline v) cur

elem-append : (k : ℕ) (xs ys : List ℕ) → elem k (xs ++ ys) ≡ (if elem k xs then true else elem k ys)
elem-append k [] ys = refl
elem-append k (x ∷ xs) ys = ground (arith, elem-append k xs ys)

module _ (cur : ℕ) where
  visit-map :
      (key k : ℕ) (w : Wheel)
      → (visit cur key w).0.time_wheel_map k
        ≡ (if (key == k) && is_due cur (w.time_wheel_map k) then none else w.time_wheel_map k)
  unfolding visit
  visit-map key k w = ground arith

  pub drain-map :
      (k : ℕ) (keys : List ℕ) (w : Wheel)
      → (drain cur keys w).0.time_wheel_map k
        ≡ (if elem k keys && is_due cur (w.time_wheel_map k) then none else w.time_wheel_map k)
  unfolding drain
  drain-map k [] w = refl
  drain-map k (key ∷ keys) w =
      ground (arith, visit-map key k w, drain-map k keys (visit cur key w).0)

  visit-expired :
      (key k : ℕ) (w : Wheel)
      → elem k (visit cur key w).1 ≡ ((key == k) && is_due cur (w.time_wheel_map k))
  unfolding visit
  visit-expired key k w = ground arith

  pub drain-expired :
      (k : ℕ) (keys : List ℕ) (w : Wheel)
      → elem k (drain cur keys w).1 ≡ (elem k keys && is_due cur (w.time_wheel_map k))
  unfolding drain
  drain-expired k [] w = refl
  drain-expired k (key ∷ keys) w = ground (
    arith,
    elem-append k (visit cur key w).1 (drain cur keys (visit cur key w).0).1,
    visit-expired key k w,
    visit-map key k w,
    drain-expired k keys (visit cur key w).0,
  )

  visit-keeps :
      (key k i : ℕ) (w : Wheel)
      → elem k (w.slot_vec i) ≡ true
      → elem k ((visit cur key w).0.slot_vec i) ≡ true
  unfolding visit
  visit-keeps key k i w h = ground arith

  -- An entry of a slot is not lost while another slot is emptied.
  pub drain-keeps :
      (k i : ℕ) (keys : List ℕ) (w : Wheel)
      → elem k (w.slot_vec i) ≡ true
      → elem k ((drain cur keys w).0.slot_vec i) ≡ true
  unfolding drain
  drain-keeps k i [] w h = h
  drain-keeps k i (key ∷ keys) w h =
      drain-keeps k i keys (visit cur key w).0 (visit-keeps key k i w h)

  visit-moves :
      (k : ℕ) (v : KeepAliveVal) (w : Wheel)
      → w.time_wheel_map k ≡ some v
      → cur < deadline v
      → elem k ((visit cur k w).0.slot_vec (next_index (deadline v) (cur % max_slot))) ≡ true
  unfolding visit
  visit-moves k v w e h = ground arith

  -- An address that is visited in time is put into the slot of its deadline.
  pub drain-moves :
      (k : ℕ) (v : KeepAliveVal) (keys : List ℕ) (w : Wheel)
      → elem k keys ≡ true
      → w.time_wheel_map k ≡ some v
      → cur < deadline v
      → elem k ((drain cur keys w).0.slot_vec (next_index (deadline v) (cur % max_slot))) ≡ true
  unfolding drain
  drain-moves k v [] w m e h = cc
  drain-moves k v (key ∷ keys) w m e h = elim (Bool-cases (k == key)) [
    | inl same ↦
        drain-keeps k _ keys (visit cur key w).0
          (rw (← eq_of_true k key same) (visit-moves k v w e h))
    | inr other ↦
        drain-moves k v keys (visit cur key w).0 (ground arith) (ground (arith, visit-map key k w))
          h
  ]

  visit-counter : (key : ℕ) (w : Wheel) → (visit cur key w).0.current_counter ≡ w.current_counter
  unfolding visit
  visit-counter key w = ground arith

  pub drain-counter :
      (keys : List ℕ) (w : Wheel) → (drain cur keys w).0.current_counter ≡ w.current_counter
  unfolding drain
  drain-counter [] w = refl
  drain-counter (key ∷ keys) w = drain-counter keys (visit cur key w).0 ∙ visit-counter key w
