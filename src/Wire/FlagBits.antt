-- ===== src/Wire/FlagBits.antt =====
-- The fields of the flags octet: lib/broker-lib/src/flags.rs.
use rust_mqtt_sn.Prelude.{ℕ, ◌≡◌, refl, true, ◌==◌, nat_eq, if◌then◌else◌, eq_of_true}
use rust_mqtt_sn.Prelude.Bytes.{IsU8, all_below, all_below_sound}
use rust_mqtt_sn.Wire.Flags.{
  flags_set, flag_is_dup, flag_qos_level, flag_is_retain, flag_is_will, flag_is_clean_session,
  flag_topic_id_type, dup_true, dup_false, retain_true, retain_false, will_true, will_false,
  clean_session_true, clean_session_false,
}

-- The octet that `flags_set` makes of the fields that the six getters find in an octet.
abbrev pub rebuilt : ℕ → ℕ
rebuilt f =
    flags_set (if flag_is_dup f then dup_true else dup_false) (flag_qos_level f)
      (if flag_is_retain f then retain_true else retain_false)
      (if flag_is_will f then will_true else will_false)
      (if flag_is_clean_session f then clean_session_true else clean_session_false)
      (flag_topic_id_type f)

rebuilt_table : all_below (λ f. rebuilt f == f) 256 ≡ true
unfolding all_below flags_set flag_is_dup flag_qos_level flag_is_retain flag_is_will
    flag_is_clean_session flag_topic_id_type
rebuilt_table = refl

-- The six getters see every bit of an octet, and `flags_set` puts each back in its place.
pub flags_set-getters : (f : ℕ) → IsU8 f → rebuilt f ≡ f
flags_set-getters f lt =
    eq_of_true (rebuilt f) f (all_below_sound (λ g. rebuilt g == g) 256 f lt rebuilt_table)
