-- ===== src/Client/Threads.antt =====
-- The threads of the client, step by step: the one that receives (`connect` and `rx_loop` of
-- lib/client-lib/src/ClientLib.rs), the one that sends, and the three of `RetransTimeWheel::run`
-- (TimingWheel2.rs), which take turns at the lock of the wheel.

pub mod Arrivals
pub mod Running
pub mod Accepts
use rust_mqtt_sn.Prelude.{
  ℕ, zero, suc, ◌+◌, Option, none, some, List, [], ◌∷◌, ◌++◌, length, map, ◌==◌, nat_eq,
  if◌then◌else◌, ◌≡◌,
}
use rust_mqtt_sn.Outcome.{Outcome, ok, err, panic}
use rust_mqtt_sn.Exec.{Exec, pure, ◌>>=◌, lift}
use rust_mqtt_sn.Retransmit.{RetransmitHeader, header_eq}
use rust_mqtt_sn.Wire.Reader.{index}
use rust_mqtt_sn.Client.{Client}
use rust_mqtt_sn.Client.Consts.{msg_type_connack}
use rust_mqtt_sn.Client.StateMachine.{state_disconnect}
use rust_mqtt_sn.Client.TimingWheel
use rust_mqtt_sn.Client.TimingWheel.{Wheel, Turn, done}
use rust_mqtt_sn.Client.Loop.{
  buffer_size, received, fill, round, begin, on_connack, publish, subscribe, subscribe_topic_id,
}

pub replicate {ℓ} : {A : Type ℓ} → ℕ → A → List A
replicate zero a = []
replicate (suc n) a = a ∷ replicate n a

-- `[0; 1500]`
unfoldable pub empty_buffer : List ℕ
unfolding replicate
empty_buffer = replicate buffer_size 0

-- Where the receiving thread is: in the loop of `connect`, in `rx_loop`, or ended by a panic.
pub data Phase : Type 0 where
  connecting looping stopped : Phase

pub record World : Type 0 where
  pub client : Client
  pub phase : Phase
  -- The buffer of `rx_loop`.
  pub buf : List ℕ
  -- What was handed to the socket.
  pub wire : List (ℕ × List ℕ)

abbrev pub Header : Type 0
Header = RetransmitHeader

-- MqttSnClient::new: the wheel sleeps for 100 ms and waits for 300 ms.
unfoldable pub new : Turn Client
new = TimingWheel.◌>>=◌ (TimingWheel.new {K = Header} {V = List ℕ} 100 300) λ wheel. done (record {
  transmit = [];
  schedule = [];
  cancel = [];
  subscribe = [];
  state = state_disconnect;
  wheel = wheel;
})

abbrev pub next_phase : Phase → Outcome (Unit {0}) → Phase
next_phase phase (ok a) = phase
next_phase phase (err e) = phase
next_phase phase panic = stopped

-- The loop of `connect` has a new buffer for each datagram and ends with the first CONNACK.
unfoldable pub await_connack : ℕ → List ℕ → Exec Client (Option (Unit {0}))
await_connack addr datagram =
    let buf = fill datagram empty_buffer in
    lift (index buf 1) >>= λ msg_type.
    if msg_type == msg_type_connack
    then (do a ← on_connack buf (length (received datagram)) addr; pure (some a))
    else pure none

abbrev pub connack_phase : Outcome (Option (Unit {0})) → Phase
connack_phase (ok none) = connecting
connack_phase (ok (some a)) = looping
connack_phase (err e) = looping
connack_phase panic = stopped

-- A datagram arrives.
unfoldable pub arrive : Phase → ℕ → List ℕ → World → World
arrive connecting addr datagram w =
    let (r, c) = await_connack addr datagram w.client in
    record w { client = c; phase = connack_phase r }
arrive looping addr datagram w =
    let (r, c) = round datagram addr w.buf w.client in
    record w { client = c; phase = next_phase looping r; buf = fill datagram w.buf }
arrive stopped addr datagram w = w

-- The thread that cancels takes the first message of its channel.
abbrev pub cancel_first : List Header → World → World
cancel_first [] w = w
cancel_first (key ∷ keys) w = record w {
  client = record w.client { cancel = keys; wheel = (TimingWheel.cancel key w.client.wheel).1 };
}

-- So does the thread that schedules.
abbrev pub schedule_first : List (Header × List ℕ) → World → Turn World
schedule_first [] w = done w
schedule_first ((key, bytes) ∷ rest) w =
    TimingWheel.◌>>=◌
      (TimingWheel.schedule key bytes w.client.wheel.default_duration w.client.wheel)
      λ wheel. done (record w { client = record w.client { schedule = rest; wheel = wheel } })

-- The thread that expires hands what it finds to the thread that sends.
abbrev pub to_transmit : Header × List ℕ → ℕ × List ℕ
to_transmit (key, bytes) = (key.addr, bytes)

unfoldable pub expire_once : World → Turn World
expire_once w = TimingWheel.◌>>=◌ (TimingWheel.expire w.client.wheel) λ found. done (record w {
  client = record w.client {
    wheel = found.0;
    transmit = w.client.transmit ++ map to_transmit found.1;
  };
})

abbrev pub send_first : List (ℕ × List ℕ) → World → World
send_first [] w = w
send_first (message ∷ rest) w = record w {
  client = record w.client { transmit = rest };
  wire = w.wire ++ (message ∷ []);
}

-- A step of one of the threads, or a call of the application.
pub data Step (w u : World) : Type 0 where
  datagram : (addr : ℕ) (octets : List ℕ) → u ≡ arrive w.phase addr octets w → Step w u
  cancels : u ≡ cancel_first w.client.cancel w → Step w u
  schedules : schedule_first w.client.schedule w ≡ done u → Step w u
  expires : expire_once w ≡ done u → Step w u
  sends : u ≡ send_first w.client.transmit w → Step w u
  publishes :
      (topic_id msg_id qos retain : ℕ) (payload : List ℕ) (addr : ℕ)
      → u ≡ record w { client = (publish topic_id msg_id qos retain payload addr w.client).1 }
      → Step w u
  subscribes :
      (topic : List ℕ) (msg_id qos retain addr : ℕ)
      → u ≡ record w { client = (subscribe topic msg_id qos retain addr w.client).1 }
      → Step w u
  subscribes_id :
      (topic_id msg_id qos retain addr : ℕ)
      → u ≡ record w { client = (subscribe_topic_id topic_id msg_id qos retain addr w.client).1 }
      → Step w u

-- The world after `connect` was called on a new client, up to its loop.
pub data IsStart (w : World) : Type 0 where
  connects :
      (client_id : List ℕ) (addr : ℕ) (c : Client)
      → new ≡ done c
      → w ≡ record {
        client = (begin client_id addr c).1;
        phase = next_phase connecting (begin client_id addr c).0;
        buf = empty_buffer;
        wire = [];
      }
      → IsStart w

pub data Reach : World → Type 0 where
  start : {w : World} → IsStart w → Reach w
  next : {w u : World} → Reach w → Step w u → Reach u
