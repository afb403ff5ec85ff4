-- ===== src/Wheel.antt =====
-- What the two timing wheels share: the number of slots, and what `try_lock` finds. The wheel's
-- thread and the task that serves datagrams share the locks; a call that finds a lock taken fails.
use Prim.Native.Nat.{ℕ, ◌*◌, ◌/◌}
use rust_mqtt_sn.Prelude.{Bool, List, ◌∷◌, [], ◌==◌, nat_eq, if◌then◌else◌}

abbrev pub sleep_duration : ℕ
sleep_duration = 100

abbrev pub max_slot : ℕ
max_slot = 1000 / sleep_duration * 64 * 2

-- Whether `TIME_WHEEL_MAP`, `SLOT_VEC` and the slot are free when they are tried.
pub record Locks : Type 0 where
  pub map_free : Bool
  pub slots_free : Bool
  pub slot_free : Bool

-- The slots of an initialised wheel, each with the entry that `pop` returns first at its head.
abbrev pub Slots : Type 0 → Type 0
Slots A = ℕ → List A

module _ {A : Type 0} where
  -- `init`
  abbrev pub no_slots : Slots A
  no_slots i = []

  abbrev pub push : Slots A → ℕ → A → Slots A
  push slots index entry i = if index == i then entry ∷ slots i else slots i

  -- The slot that is being emptied.
  abbrev pub clear : Slots A → ℕ → Slots A
  clear slots index i = if index == i then [] else slots i
