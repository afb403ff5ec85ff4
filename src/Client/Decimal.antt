-- ===== src/Client/Decimal.antt =====
-- `format!("{}", n)` of a `u16`, as `subscribe_topic_id` of lib/client-lib/src/ClientLib.rs uses it:
-- its decimal digits, at most five.
use rust_mqtt_sn.Prelude.{ℕ, zero, suc, ◌+◌, ◌/◌, ◌%◌, List, [], ◌∷◌, ltb, if◌then◌else◌}

unfoldable pub digits : ℕ → ℕ → List ℕ → List ℕ
digits zero n rest = rest
digits (suc fuel) n rest =
    let more = digits fuel (n / 10) ((48 + n % 10) ∷ rest) in
    if ltb n 10 then (48 + n) ∷ rest else more

unfoldable pub decimal : ℕ → List ℕ
unfolding digits
decimal n = digits 5 n []
