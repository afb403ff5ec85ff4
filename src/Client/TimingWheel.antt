-- ===== src/Client/TimingWheel.antt =====
-- The timing wheel of the client: `TimingWheel2` of lib/client-lib/src/TimingWheel2.rs, with any
-- keys and values. A slot has the entry that `pop` returns first at its head.
pub mod Entries
pub mod Emptied
pub mod Backoff
pub mod Kept
pub mod Times
pub mod Resends
use rust_mqtt_sn.Prelude.{
  ℕ, ◌+◌, ◌*◌, ◌/◌, ◌%◌, Option, none, some, List, [], ◌∷◌, ◌++◌, ltb, Eq, ◌==◌, nat_eq, put, erase,
  empty_map, if◌then◌else◌,
}
use rust_mqtt_sn.Wheel.{Slots, no_slots, push, clear}

-- A call returns, or it panics, or it waits for ever for a lock that it holds itself.
pub data Turn {ℓ} (A : Type ℓ) : Type ℓ where
  done : A → Turn A
  panics hangs : Turn A

infixl 5 ◌>>=◌
abbrev pub ◌>>=◌ {ℓ κ} : {A : Type ℓ} {B : Type κ} → Turn A → (A → Turn B) → Turn B
done a >>= f = f a
panics >>= f = panics
hangs >>= f = hangs

pub record Wheel (K V : Type 0) : Type 0 where
  pub max_slot : ℕ
  pub sleep_duration : ℕ
  pub default_duration : ℕ
  pub cur_counter : ℕ
  -- Each entry with the duration after which it was put into its slot.
  pub slot_vec : Slots (K × ℕ)
  pub hash : K → Option V

module _ {K V : Type 0} where
  -- A sleep of no milliseconds is a division by zero.
  unfoldable pub new : ℕ → ℕ → Turn (Wheel K V)
  new sleep_duration default_duration_ms =
      if sleep_duration == 0
      then panics
      else done (record {
        max_slot = 1000 / sleep_duration * 64 * 2;
        sleep_duration = sleep_duration;
        default_duration = default_duration_ms / sleep_duration;
        cur_counter = 0;
        slot_vec = no_slots;
        hash = empty_map;
      })

  -- The slot of a counter: `%` panics for a wheel without slots.
  abbrev pub slot_index : ℕ → Wheel K V → Turn ℕ
  slot_index counter w = if w.max_slot == 0 then panics else done (counter % w.max_slot)

  unfoldable pub reschedule : K → ℕ → Wheel K V → Turn (Wheel K V)
  reschedule key duration w = do
    index ← slot_index (w.cur_counter + duration) w
    done (record w { slot_vec = push w.slot_vec index (key, duration) })

module _ {K V : Type 0} ⦃e : Eq K⦄ where
  unfoldable pub schedule : K → V → ℕ → Wheel K V → Turn (Wheel K V)
  schedule key val duration w = do
    index ← slot_index (w.cur_counter + duration) w
    done (record w { slot_vec = push w.slot_vec index (key, duration); hash = put w.hash key val })

  -- Only the map forgets the key: `Ok` if it was there.
  unfoldable pub cancel : K → Wheel K V → Option (Unit {0}) × Wheel K V
  cancel key w = elim (w.hash key) [
    | none ↦ (none, w)
    | some val ↦ (some tt, record w { hash = erase w.hash key })
  ]

  -- One round of the loop of `expire`, while the slot of `cur` is locked: to put the entry back into
  -- the same slot waits for ever.
  pub visit : ℕ → K × ℕ → Wheel K V → Turn (Wheel K V × List (K × V))
  visit cur (key, d) w =
      let duration = d * 2 in
      if ltb duration w.max_slot
      then (elim (w.hash key) [
        | none ↦ done (w, [])
        | some val ↦
            if (cur + duration) % w.max_slot == cur % w.max_slot
            then hangs
            else done (
              record w {
                slot_vec = push w.slot_vec ((cur + duration) % w.max_slot) (key, duration);
              },
              (key, val) ∷ [],
            )
      ])
      else done (record w { hash = erase w.hash key }, [])

  pub drain : ℕ → List (K × ℕ) → Wheel K V → Turn (Wheel K V × List (K × V))
  drain cur [] w = done (w, [])
  drain cur (entry ∷ entries) w = do
    (w1, sent) ← visit cur entry w
    (w2, more) ← drain cur entries w1
    done (w2, sent ++ more)

  -- `expire`, which counts after the loop.
  unfoldable pub expire : Wheel K V → Turn (Wheel K V × List (K × V))
  unfolding drain visit
  expire w = do
    index ← slot_index w.cur_counter w
    (w', sent) ←
        drain w.cur_counter (w.slot_vec index) (record w { slot_vec = clear w.slot_vec index })
    done (record w' { cur_counter = w'.cur_counter + 1 }, sent)
