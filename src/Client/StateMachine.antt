-- ===== src/Client/StateMachine.antt =====
-- The states of the client: lib/client-lib/src/StateMachine.rs.
use rust_mqtt_sn.Prelude.{ℕ, ◌&&◌, Option, none, some, ltb, ◌==◌, nat_eq, if◌then◌else◌}
use rust_mqtt_sn.Outcome.{Outcome, ok, panic}
use rust_mqtt_sn.Client.Consts.{msg_type_connect, msg_type_connack, msg_type_publish}

abbrev pub state_active : ℕ
state_active = 0

abbrev pub state_disconnect : ℕ
state_disconnect = 1

abbrev pub state_connect_sent : ℕ
state_connect_sent = 2

abbrev pub state_lost : ℕ
state_lost = 3

abbrev pub state_sleep : ℕ
state_sleep = 4

abbrev pub state_awake : ℕ
state_awake = 5

abbrev pub state_max : ℕ
state_max = 6

abbrev pub msg_type_max : ℕ
msg_type_max = 256

-- The table of the states that follow a state and a message type.
abbrev pub States : Type 0
States = ℕ → ℕ → Option ℕ

unfoldable pub insert : ℕ → ℕ → ℕ → States → States
insert cur_state msg_type next_state states s t =
    if s == cur_state && t == msg_type then some next_state else states s t

unfoldable pub new : States
unfolding insert
new = insert state_active msg_type_publish state_active (
    insert state_connect_sent msg_type_connack state_active
      (insert state_disconnect msg_type_connect state_connect_sent (λ s t. none)))

-- An index outside the table panics.
unfoldable pub transition : ℕ → ℕ → Outcome (Option ℕ)
unfolding new
transition cur_state msg_type =
    if ltb cur_state state_max && ltb msg_type msg_type_max
    then ok (new cur_state msg_type)
    else panic
