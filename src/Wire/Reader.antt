-- ===== src/Wire/Reader.antt =====
-- The code that the derive of lib/getset generates for a struct of integers with at most one text
-- or byte field at its end: `try_read` indexes the bytes in the order of the fields, and
-- `try_write` puts them in that order, each `u16` with its high octet first.
use rust_mqtt_sn.Prelude.{
  ℕ, ◌+◌, ◌-◌, ◌≤◌, ◌≡◌, List, ◌∷◌, ◌&&◌, arith, length, take, drop, get_elem?, leb, if◌then◌else◌,
  take-length, length-drop,
}
use rust_mqtt_sn.Prelude.Bytes.{be16, high, low}
use rust_mqtt_sn.Outcome.{Outcome, ok, panic, ◌>>=◌, unwrap}
use rust_mqtt_sn.Wire.Utf8.{is_utf8}

-- `bytes[i]`
abbrev pub index : List ℕ → ℕ → Outcome ℕ
index bytes i = unwrap (get_elem? bytes i)

-- `bytes[from .. to]`
unfoldable pub slice : List ℕ → ℕ → ℕ → Outcome (List ℕ)
slice bytes from to =
    if leb from to && leb to (length bytes) then ok (take (to - from) (drop from bytes)) else panic

-- A field read at an offset comes back with the next offset.
abbrev pub read_u8 : List ℕ → ℕ → Outcome (ℕ × ℕ)
read_u8 bytes offset = do b ← index bytes offset; ok (b, offset + 1)

abbrev pub read_u16 : List ℕ → ℕ → Outcome (ℕ × ℕ)
read_u16 bytes offset = do
  h ← index bytes offset
  l ← index bytes (offset + 1)
  ok (be16 h l, offset + 2)

-- `String` takes what is left up to `size` and panics if it is no UTF-8; the offset stays.
unfoldable pub read_string : List ℕ → ℕ → ℕ → Outcome (List ℕ)
unfolding slice
read_string bytes size offset = do v ← slice bytes offset size; if is_utf8 v then ok v else panic

-- `Bytes` and `BytesMut` take what is left up to `size`.
abbrev pub read_bytes : List ℕ → ℕ → ℕ → Outcome (List ℕ)
read_bytes bytes size offset = slice bytes offset size

-- `put_u16`
abbrev pub put_u16 : ℕ → List ℕ → List ℕ
put_u16 n rest = high n ∷ low n ∷ rest

-- The slice from an offset to the end of the bytes.
pub slice_rest :
    (bytes : List ℕ) (n : ℕ) → n ≤ length bytes → slice bytes n (length bytes) ≡ ok (drop n bytes)
unfolding slice
slice_rest bytes n h = ground (arith, length-drop n bytes, take-length (drop n bytes))

-- A reader at `&buf[skip..]`.
abbrev pub read_from : {A : Type 0} → ℕ → (List ℕ → ℕ → Outcome A) → List ℕ → ℕ → Outcome A
read_from skip read buf size = slice buf skip (length buf) >>= λ rest. read rest size
