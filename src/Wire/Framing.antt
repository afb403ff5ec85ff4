-- ===== src/Wire/Framing.antt =====
-- Which datagrams `MsgHeader::try_read` of lib/broker-lib/src/msg_hdr.rs takes.
use rust_mqtt_sn.Prelude.{
  ℕ, ◌+◌, ◌≤◌, ◌<◌, ◌≡◌, ◌↔◌, List, [], ◌∷◌, some, arith, length, get_elem?, ◌==◌, nat_eq,
  if◌then◌else◌,
}
use rust_mqtt_sn.Prelude.Bytes.{high, low, IsU16}
use rust_mqtt_sn.Outcome.{ok, err, panic, size_mismatch}
use rust_mqtt_sn.Wire.Header.{MsgHeader, short, long, try_read, check_size}

-- A header that is accepted names the sender, and its length is the size of the datagram.
pub try_read-len :
    (buf : List ℕ) (remote : ℕ) (h : MsgHeader)
    → try_read buf (length buf) remote ≡ ok h
    → (h.len ≡ length buf) × (h.remote_socket_addr ≡ remote)
unfolding try_read check_size
try_read-len [] remote h e = ground arith
try_read-len (a ∷ []) remote h e = ground arith
try_read-len (a ∷ b ∷ []) remote h e = ground arith
try_read-len (a ∷ b ∷ c ∷ []) remote h e = ground arith
try_read-len (a ∷ b ∷ c ∷ d ∷ bs) remote h e = ground arith

-- Reading the header panics exactly for a datagram of two or three octets that starts with 1.
pub try_read-panics :
    (buf : List ℕ) (remote : ℕ)
    → (try_read buf (length buf) remote ≡ panic)
      ↔ ((get_elem? buf 0 ≡ some 1) × (2 ≤ length buf) × (length buf < 4))
unfolding try_read check_size
try_read-panics [] remote = ground arith
try_read-panics (a ∷ []) remote = ground arith
try_read-panics (a ∷ b ∷ []) remote = ground arith
try_read-panics (a ∷ b ∷ c ∷ []) remote = ground arith
try_read-panics (a ∷ b ∷ c ∷ d ∷ bs) remote = ground arith

-- A datagram in the short form, whose first octet is its size.
pub try_read-short :
    (len t remote : ℕ) (rest : List ℕ)
    → len ≡ 2 + length rest
    → try_read (len ∷ t ∷ rest) len remote
      ≡ ok (record { remote_socket_addr = remote; len = len; msg_type = t; header_len = short })
unfolding try_read check_size
try_read-short len t remote rest e = ground arith

-- A datagram in the long form is accepted if and only if the length it states is its size.
pub try_read-long :
    (len t remote : ℕ) (rest : List ℕ)
    → IsU16 len
    → try_read (1 ∷ high len ∷ low len ∷ t ∷ rest) (4 + length rest) remote ≡ (
        if len == 4 + length rest
        then ok (record { remote_socket_addr = remote; len = len; msg_type = t; header_len = long })
        else err size_mismatch)
unfolding try_read check_size
try_read-long len t remote rest e = ground arith
