-- ===== src/Client/Threads/Running.antt =====
-- What holds in every world that the threads of the client reach.
use rust_mqtt_sn.Prelude.{
  ℕ, ◌≡◌, refl, List, [], ◌∷◌, ◌++◌, length, map, arith, nat_eq, ◌∙◌, subst, sym,
}
use rust_mqtt_sn.Outcome.{ok}
use rust_mqtt_sn.Retransmit.{header_eq}
use rust_mqtt_sn.Wire.Flags.{topic_id_type_normal, topic_id_type_pre_defined}
use rust_mqtt_sn.Client.Decimal.{decimal}
use rust_mqtt_sn.Client.{Client, transmit, schedule}
use rust_mqtt_sn.Client.StateMachine.{transition, state_connect_sent, state_disconnect}
use rust_mqtt_sn.Client.TimingWheel
use rust_mqtt_sn.Client.TimingWheel.{Wheel, Turn, done}
use rust_mqtt_sn.Client.TimingWheel.Backoff.{
  expire-done, ticked, emptied, ticked-size, ticked-default,
}
use rust_mqtt_sn.Client.TimingWheel.Resends.{schedule-IsRunning, cancel-IsRunning}
use rust_mqtt_sn.Client.Handlers.Connect
use rust_mqtt_sn.Client.Handlers.Effects.{Has, publish-Has, subscribe-Has}
use rust_mqtt_sn.Client.Loop.{advance, begin, publish, subscribe, subscribe_topic_id, buffer_size}
use rust_mqtt_sn.Client.Threads.{
  World, empty_buffer, Header, cancel_first, schedule_first, expire_once, send_first, to_transmit,
  Step, datagram, cancels, schedules, expires, sends, publishes, subscribes, subscribes_id, IsStart,
  connects, Reach, start, next, new,
}
use rust_mqtt_sn.Client.Threads.Arrivals.{IsReady, IsState, IsSound, arrive-IsSound}

done-injective {ℓ} : {A : Type ℓ} (a b : A) → done a ≡ done b → a ≡ b
done-injective a b e = cc

schedule_first-IsSound :
    (queue : List (Header × List ℕ)) (w : World)
    → IsSound w
    → (u : World) × (schedule_first queue w ≡ done u) × IsSound u
schedule_first-IsSound [] w s = (w, refl, s)
schedule_first-IsSound ((key, bytes) ∷ rest) w s =
    let (wheel, e, r, max, wait) =
      schedule-IsRunning key bytes w.client.wheel.default_duration w.client.wheel s.wheel.running
        (omega (arith, s.wheel.wait)) in
    (
      record w { client = record w.client { schedule = rest; wheel = wheel } },
      rw e refl,
      record {
        wheel = record { running = r; size = max ∙ s.wheel.size; wait = wait ∙ s.wheel.wait };
        state = s.state;
        buffer = s.buffer;
      },
    )

expire_once-IsSound : (w : World) → IsSound w → (u : World) × (expire_once w ≡ done u) × IsSound u
unfolding expire_once
expire_once-IsSound w s =
    let wheel = w.client.wheel in
    let (e, r) = expire-done wheel s.wheel.running in
    (
      record w {
        client = record w.client {
          wheel = ticked wheel;
          transmit = w.client.transmit ++ map to_transmit (emptied wheel).1;
        };
      },
      rw e refl,
      record {
        wheel = record {
          running = r;
          size = ticked-size wheel ∙ s.wheel.size;
          wait = ticked-default wheel ∙ s.wheel.wait;
        };
        state = s.state;
        buffer = s.buffer;
      },
    )

cancel-IsReady :
    (key : Header) (wheel : Wheel Header (List ℕ))
    → IsReady wheel
    → IsReady (TimingWheel.cancel key wheel).1
unfolding TimingWheel.cancel
cancel-IsReady key wheel r = record {
  running = cancel-IsRunning key wheel r.running;
  size = ground (arith, r.size);
  wait = ground (arith, r.wait);
}

cancel_first-IsSound : (keys : List Header) (w : World) → IsSound w → IsSound (cancel_first keys w)
cancel_first-IsSound [] w s = s
cancel_first-IsSound (key ∷ keys) w s = record {
  wheel = cancel-IsReady key w.client.wheel s.wheel;
  state = s.state;
  buffer = s.buffer;
}

send_first-IsSound :
    (queue : List (ℕ × List ℕ)) (w : World) → IsSound w → IsSound (send_first queue w)
send_first-IsSound [] w s = s
send_first-IsSound (message ∷ rest) w s = record {
  wheel = s.wheel;
  state = s.state;
  buffer = s.buffer;
}

-- A call that keeps the state and the wheel.
called-IsSound :
    (w : World) (c : Client)
    → Has w.client.state w.client.wheel c
    → IsSound w
    → IsSound (record w { client = c })
called-IsSound w c h s = record {
  wheel = subst IsReady (sym h.1) s.wheel;
  state = subst (IsState w.phase) (sym h.0) s.state;
  buffer = s.buffer;
}

Step-IsSound : (w u : World) → Step w u → IsSound w → IsSound u
unfolding publish subscribe subscribe_topic_id
Step-IsSound w u (datagram addr octets e) s =
    subst IsSound (sym e) (arrive-IsSound w.phase addr octets w s.wheel s.state s.buffer refl)
Step-IsSound w u (cancels e) s = subst IsSound (sym e) (cancel_first-IsSound w.client.cancel w s)
Step-IsSound w u (schedules e) s =
    let (v, f, s') = schedule_first-IsSound w.client.schedule w s in
    subst IsSound (done-injective v u (sym f ∙ e)) s'
Step-IsSound w u (expires e) s =
    let (v, f, s') = expire_once-IsSound w s in subst IsSound (done-injective v u (sym f ∙ e)) s'
Step-IsSound w u (sends e) s = subst IsSound (sym e) (send_first-IsSound w.client.transmit w s)
Step-IsSound w u (publishes topic_id msg_id qos retain payload addr e) s = subst IsSound (sym e) (
    called-IsSound w _
      ((publish-Has w.client.state w.client.wheel topic_id msg_id qos retain payload addr).at
        w.client (refl, refl))
      s)
Step-IsSound w u (subscribes topic msg_id qos retain addr e) s = subst IsSound (sym e) (
    called-IsSound w _
      ((subscribe-Has w.client.state w.client.wheel topic msg_id qos retain topic_id_type_normal
          addr).at
        w.client (refl, refl))
      s)
Step-IsSound w u (subscribes_id topic_id msg_id qos retain addr e) s = subst IsSound (sym e) (
    called-IsSound w _
      ((subscribe-Has w.client.state w.client.wheel (decimal topic_id) msg_id qos retain
          topic_id_type_pre_defined addr).at
        w.client (refl, refl))
      s)

length-empty_buffer : length empty_buffer ≡ buffer_size
unfolding empty_buffer
length-empty_buffer = refl

-- What `connect` does before its loop.
begin-state :
    (client_id : List ℕ) (addr : ℕ) (wheel : Wheel Header (List ℕ)) (c : Client)
    → Has state_disconnect wheel c
    → ((begin client_id addr c).0 ≡ ok tt) × Has state_connect_sent wheel (begin client_id addr c).1
unfolding begin advance transition Connect.tx transmit schedule
begin-state client_id addr wheel c h = ground arith

new-IsReady : (c : Client) → new ≡ done c → Has state_disconnect c.wheel c × IsReady c.wheel
unfolding new TimingWheel.new
new-IsReady c e =
    subst (λ c'. Has state_disconnect c'.wheel c' × IsReady c'.wheel) (done-injective _ c e)
      (
        (refl, refl),
        record {
          running = record { slots = omega arith; later = λ i. tt };
          size = refl;
          wait = refl;
        },
      )

IsStart-IsSound : (w : World) → IsStart w → IsSound w
IsStart-IsSound w (connects client_id addr c made e) =
    let (h, r) = new-IsReady c made in
    let (fine, h') = begin-state client_id addr c.wheel c h in
    subst IsSound (sym e) (record {
      wheel = subst IsReady (sym h'.1) r;
      state = rw fine h'.0;
      buffer = length-empty_buffer;
    })

pub Reach-IsSound : {w : World} → Reach w → IsSound w
Reach-IsSound (start {w} s) = IsStart-IsSound w s
Reach-IsSound (next {w} {u} r st) = Step-IsSound w u st (Reach-IsSound r)

-- In every world that the threads of a client reach, in whatever order they take their steps and
-- whatever arrives: the thread that schedules and the one that expires neither panic nor wait for
-- ever; and the client is in the state after CONNECT as long as `connect` waits, and active as long
-- as `rx_loop` runs.
pub Reach-runs :
    {w : World}
    → Reach w
    → ((u : World) × (schedule_first w.client.schedule w ≡ done u))
      × ((u : World) × (expire_once w ≡ done u))
      × IsState w.phase w.client.state
Reach-runs {w} r =
    let s = Reach-IsSound r in
    let (u, e, a) = schedule_first-IsSound w.client.schedule w s in
    let (v, f, b) = expire_once-IsSound w s in ((u, e), (v, f), s.state)
