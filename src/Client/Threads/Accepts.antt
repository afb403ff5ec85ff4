-- ===== src/Client/Threads/Accepts.antt =====
-- What a CONNACK does to a client: the loops of `connect` and `rx_loop` of
-- lib/client-lib/src/ClientLib.rs, with ConnAck::rx of ConnAck.rs.
use rust_mqtt_sn.Prelude.{ℕ, ◌≡◌, refl, some, List, ◌∷◌, arith, nat_eq, ap, subst}
use rust_mqtt_sn.Outcome.{ok, panic}
use rust_mqtt_sn.Wire.Messages.ConnAck.{try_read}
use rust_mqtt_sn.Client.{Client, cancel}
use rust_mqtt_sn.Client.StateMachine.{state_active, state_connect_sent, transition}
use rust_mqtt_sn.Client.Handlers.ConnAck
use rust_mqtt_sn.Client.Loop.{advance, on_connack, round}
use rust_mqtt_sn.Client.Loop.Stops.{round-stops}
use rust_mqtt_sn.Client.Threads.{
  World, connecting, looping, stopped, arrive, await_connack, next_phase, Reach,
}
use rust_mqtt_sn.Client.Threads.Arrivals.{IsState}
use rust_mqtt_sn.Client.Threads.Running.{Reach-IsSound}

await_connack-active :
    (len code addr : ℕ) (rest : List ℕ) (c : Client)
    → c.state ≡ state_connect_sent
    → ((await_connack addr (len ∷ 5 ∷ code ∷ rest) c).0 ≡ ok (some tt))
      × ((await_connack addr (len ∷ 5 ∷ code ∷ rest) c).1.state ≡ state_active)
unfolding await_connack on_connack ConnAck.rx try_read cancel advance transition
await_connack-active len code addr rest c h = ground arith

-- In a world that the threads of a client reach, while `connect` waits, a CONNACK from any address
-- with any return code makes the client active and starts `rx_loop`. There another CONNACK ends the
-- receiving thread by a panic.
pub connack-twice :
    {w : World} (len code addr : ℕ) (rest : List ℕ) (len' other : ℕ) (rest' : List ℕ)
    → Reach w
    → w.phase ≡ connecting
    → ((arrive w.phase addr (len ∷ 5 ∷ code ∷ rest) w).phase ≡ looping)
      × ((arrive w.phase addr (len ∷ 5 ∷ code ∷ rest) w).client.state ≡ state_active)
      × ((arrive looping other
            (len' ∷ 5 ∷ rest')
            (arrive w.phase addr (len ∷ 5 ∷ code ∷ rest) w)).phase
          ≡ stopped)
unfolding arrive
connack-twice {w} len code addr rest len' other rest' r p =
    let s = Reach-IsSound r in
    let waits : w.client.state ≡ state_connect_sent =
      subst (λ ph. IsState ph w.client.state) p s.state in
    let (fine, active) = await_connack-active len code addr rest w.client waits in
    let c = (await_connack addr (len ∷ 5 ∷ code ∷ rest) w.client).1 in
    let ends : (round (len' ∷ 5 ∷ rest') other w.buf c).0 ≡ panic =
      round-stops (len' ∷ 5 ∷ rest') other 5 w.buf c s.buffer active refl in
    rw (p, fine) (refl, active, ap (next_phase looping) ends)
