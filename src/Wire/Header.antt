-- ===== src/Wire/Header.antt =====
-- The header of a datagram: lib/broker-lib/src/msg_hdr.rs. The connection object that the header
-- carries is left out: no handler uses it.
use rust_mqtt_sn.Prelude.{ℕ, List, ◌==◌, nat_eq, leb, if◌then◌else◌}
use rust_mqtt_sn.Prelude.Bytes.{be16}
use rust_mqtt_sn.Outcome.{Outcome, ok, err, too_short, size_mismatch, ◌>>=◌}
use rust_mqtt_sn.Wire.Reader.{index}

pub data MsgHeaderLen : Type 0 where
  short long : MsgHeaderLen

pub record MsgHeader : Type 0 where
  pub remote_socket_addr : ℕ
  pub len : ℕ
  pub msg_type : ℕ
  pub header_len : MsgHeaderLen

-- `if size == len as usize`
unfoldable pub check_size : ℕ → MsgHeader → Outcome MsgHeader
check_size size header = if size == header.len then ok header else err size_mismatch

-- The two octets of the long length are disjoint, so `|` adds them.
unfoldable pub try_read : List ℕ → ℕ → ℕ → Outcome MsgHeader
unfolding check_size
try_read buf size remote =
    if leb 2 size
    then (do
      first ← index buf 0
      if first == 1
          then (do
            h ← index buf 1
            l ← index buf 2
            t ← index buf 3
            check_size size (record {
              remote_socket_addr = remote;
              len = be16 h l;
              msg_type = t;
              header_len = long;
            }))
          else (do
            t ← index buf 1
            check_size size (record {
              remote_socket_addr = remote;
              len = first;
              msg_type = t;
              header_len = short;
            })))
    else err too_short
