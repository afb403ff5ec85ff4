-- ===== src/Wire/Flags.antt =====
-- The flags octet: lib/broker-lib/src/flags.rs.
use Prim.Native.Nat.{bit_and, bit_or}
use rust_mqtt_sn.Prelude.{ℕ, Bool, not, ◌==◌, nat_eq}

abbrev pub dup_false : ℕ
dup_false = 0b0_00_0_0_0_00

abbrev pub dup_true : ℕ
dup_true = 0b1_00_0_0_0_00

abbrev pub qos_level_0 : ℕ
qos_level_0 = 0b0_00_0_0_0_00

abbrev pub qos_level_1 : ℕ
qos_level_1 = 0b0_01_0_0_0_00

abbrev pub qos_level_2 : ℕ
qos_level_2 = 0b0_10_0_0_0_00

abbrev pub qos_level_3 : ℕ
qos_level_3 = 0b0_11_0_0_0_00

abbrev pub retain_false : ℕ
retain_false = 0b0_00_0_0_0_00

abbrev pub retain_true : ℕ
retain_true = 0b0_00_1_0_0_00

abbrev pub will_false : ℕ
will_false = 0b0_00_0_0_0_00

abbrev pub will_true : ℕ
will_true = 0b0_00_0_1_0_00

abbrev pub clean_session_false : ℕ
clean_session_false = 0b0_00_0_0_0_00

abbrev pub clean_session_true : ℕ
clean_session_true = 0b0_00_0_0_1_00

abbrev pub topic_id_type_normal : ℕ
topic_id_type_normal = 0b0_00_0_0_0_00

abbrev pub topic_id_type_pre_defined : ℕ
topic_id_type_pre_defined = 0b0_00_0_0_0_01

abbrev pub topic_id_type_short : ℕ
topic_id_type_short = 0b0_00_0_0_0_10

abbrev pub topic_id_type_reserved : ℕ
topic_id_type_reserved = 0b0_00_0_0_0_11

unfoldable pub flag_is_dup : ℕ → Bool
flag_is_dup input = not (bit_and input 0b1_0000000 == 0)

unfoldable pub flag_qos_level : ℕ → ℕ
flag_qos_level input = bit_and input 0b0_11_00000

unfoldable pub flag_is_retain : ℕ → Bool
flag_is_retain input = not (bit_and input 0b000_1_0000 == 0)

unfoldable pub flag_is_will : ℕ → Bool
flag_is_will input = not (bit_and input 0b0000_1_000 == 0)

unfoldable pub flag_is_clean_session : ℕ → Bool
flag_is_clean_session input = not (bit_and input 0b00000_1_00 == 0)

unfoldable pub flag_topic_id_type : ℕ → ℕ
flag_topic_id_type input = bit_and input 0b11

unfoldable pub flags_set : ℕ → ℕ → ℕ → ℕ → ℕ → ℕ → ℕ
flags_set dup qos retain will clean_session topic_id_type =
    bit_or (bit_or (bit_or (bit_or (bit_or dup qos) retain) will) clean_session) topic_id_type
