-- ===== src/Timers.antt =====
-- The two timer threads as they act on the broker: what `run` of lib/broker-lib/src/keep_alive.rs
-- does with the connections whose time ran out, and what `run` of retransmit.rs sends again.
use rust_mqtt_sn.Prelude.{ℕ, Option, none, some, List, [], ◌∷◌}
use rust_mqtt_sn.Exec.{Exec, pure, attempt, ◌>>◌}
use rust_mqtt_sn.Bisetmap.{BisetMaps}
use rust_mqtt_sn.Connection.{StateEnum2, lost}
use rust_mqtt_sn.KeepAlive
use rust_mqtt_sn.Retransmit
use rust_mqtt_sn.Broker.{Broker, try_send}
use rust_mqtt_sn.Broker.Clients.{update_state, publish_will}

module _ ⦃B : BisetMaps⦄ where
  -- A connection that timed out: it is lost, and its will is published if it is still known.
  unfoldable pub expire : ℕ → Exec Broker (Unit {0})
  expire addr = attempt (update_state addr lost >> attempt (publish_will addr))

  unfoldable pub expire_each : List ℕ → Exec Broker (Unit {0})
  expire_each [] = pure tt
  expire_each (addr ∷ addrs) = expire addr >> expire_each addrs

  -- One round of `KeepAliveTimeWheel::run`
  unfoldable pub keep_alive_tick : Exec Broker (Unit {0})
  unfolding expire_each expire
  keep_alive_tick b =
      let (wheel, expired) = KeepAlive.tick b.keep_alive in
      expire_each expired (record b { keep_alive = wheel })

  -- `Connection::get_state` as the other wheel asks for it
  abbrev pub state_of : Broker → ℕ → Option StateEnum2
  state_of b addr = elim (b.conn_hashmap addr) [ none ↦ none | some c ↦ some c.state ]

  unfoldable pub send_each : List (ℕ × List ℕ) → Exec Broker (Unit {0})
  send_each [] = pure tt
  send_each ((addr, bytes) ∷ sent) = attempt (try_send addr bytes) >> send_each sent

  -- One round of `RetransTimeWheel::run`
  unfoldable pub retransmit_tick : Exec Broker (Unit {0})
  unfolding send_each
  retransmit_tick b =
      let (wheel, sent) = Retransmit.tick (state_of b) b.retransmit in
      send_each sent (record b { retransmit = wheel })
