-- ===== src/Wire/Utf8.antt =====
-- The check of `str::from_utf8`: no overlong form, no surrogate, nothing above U+10FFFF.
use rust_mqtt_sn.Prelude.{
  ℕ, zero, suc, ◌≡◌, refl, Bool, true, false, ◌&&◌, Option, none, some, List, [], ◌∷◌, All, ◌<◌,
  arith, ltb, leb, ◌==◌, nat_eq, if◌then◌else◌,
}

-- After a lead octet: how many octets follow, and the range of the first of them.
pub record Due : Type 0 where
  pub more : ℕ
  pub least : ℕ
  pub most : ℕ

abbrev due : ℕ → ℕ → ℕ → Option Due
due more least most = some (record { more = more; least = least; most = most })

lead : ℕ → Option Due
lead b =
    if ltb b 0x80
    then due 0 0x80 0xbf
    else if ltb b 0xc2
    then none
    else if ltb b 0xe0
    then due 1 0x80 0xbf
    else if b == 0xe0
    then due 2 0xa0 0xbf
    else if b == 0xed
    then due 2 0x80 0x9f
    else if ltb b 0xf0
    then due 2 0x80 0xbf
    else if b == 0xf0
    then due 3 0x90 0xbf
    else if ltb b 0xf4
    then due 3 0x80 0xbf
    else if b == 0xf4
    then due 3 0x80 0x8f
    else none

-- The octets that are due come first; the later ones of a character have the full range.
scan : ℕ → ℕ → ℕ → List ℕ → Bool
scan zero least most [] = true
scan (suc k) least most [] = false
scan (suc k) least most (b ∷ bs) = leb least b && leb b most && scan k 0x80 0xbf bs
scan zero least most (b ∷ bs) = elim (lead b) [
  | none ↦ false
  | some d ↦ scan d.more d.least d.most bs
]

unfoldable pub is_utf8 : List ℕ → Bool
unfolding scan lead
is_utf8 bytes = scan 0 0x80 0xbf bytes

abbrev pub IsAscii : ℕ → Type 0
IsAscii b = b < 128

scan_ascii : (least most : ℕ) (bs : List ℕ) → All IsAscii bs → scan 0 least most bs ≡ true
unfolding scan lead
scan_ascii least most [] h = refl
scan_ascii least most (b ∷ bs) h = ground (arith, scan_ascii 0x80 0xbf bs h.1)

-- ASCII text is well formed.
pub is_utf8_ascii : (bs : List ℕ) → All IsAscii bs → is_utf8 bs ≡ true
unfolding is_utf8
is_utf8_ascii bs h = scan_ascii 0x80 0xbf bs h

-- An octet from 0x80 to 0xC1 never begins a character.
pub is_utf8_lead : (b : ℕ) (bs : List ℕ) → 128 < suc b → b < 0xc2 → is_utf8 (b ∷ bs) ≡ false
unfolding is_utf8
is_utf8_lead b bs p q = ground arith
