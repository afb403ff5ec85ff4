-- ===== src/Prelude/Bytes.antt =====
-- Machine words as native numbers, and facts about a byte by evaluation.
use Prim.Native.Nat.{ℕ, zero, suc, ◌+◌, ◌*◌, ◌/◌, ◌%◌, ◌<◌}
use mathlib.Core.Path.{◌≡◌}
use mathlib.Core.Bool.{Bool, true, ◌&&◌}
use native.Mathlib.Omega.{arith}

-- `as u8` and `as u16`.
abbrev pub u8 : ℕ → ℕ
u8 n = n % 256

abbrev pub u16 : ℕ → ℕ
u16 n = n % 65536

abbrev pub IsU8 : ℕ → Type 0
IsU8 n = n < 256

abbrev pub IsU16 : ℕ → Type 0
IsU16 n = n < 65536

-- The two octets of a big-endian `u16`, and the number that two octets stand for.
abbrev pub high : ℕ → ℕ
high n = n / 256

abbrev pub low : ℕ → ℕ
low n = n % 256

abbrev pub be16 : ℕ → ℕ → ℕ
be16 h l = h * 256 + l

-- A test of every number below a bound, by evaluation.
unfoldable pub all_below : (ℕ → Bool) → ℕ → Bool
all_below test zero = true
all_below test (suc bound) = let below = all_below test bound in test bound && below

pub all_below_sound :
    (test : ℕ → Bool) (bound i : ℕ) → i < bound → all_below test bound ≡ true → test i ≡ true
unfolding all_below
all_below_sound test zero i small passed = absurd (omega arith)
all_below_sound test (suc bound) i small passed = ground (arith, all_below_sound test bound i)
