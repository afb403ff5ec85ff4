-- ===== src/Tests/ClientWorlds.antt =====
-- The properties of the client at an idle client, at one that waits for CONNACK, and at a broker with
-- two connections.
use rust_mqtt_sn.Prelude.{
  none, ℕ, ◌≡◌, refl, some, List, [], ◌∷◌, length, arith, nat_eq, list_eq, pair_eq, put, empty_map,
}
use rust_mqtt_sn.Outcome.{ok, panic}
use rust_mqtt_sn.Bisetmap.Pairs.{pairs}
use rust_mqtt_sn.Retransmit.{RetransmitHeader, header_eq}
use rust_mqtt_sn.Wheel.{no_slots, push}
use rust_mqtt_sn.Wire.Header as Header
use rust_mqtt_sn.Wire.Messages.Publish as PublishForm
use rust_mqtt_sn.Wire.Flags.{qos_level_1, qos_level_2}
use rust_mqtt_sn.Broker.Delivery.{Sends}
use rust_mqtt_sn.Handlers.PubRel as BrokerPubRel
use rust_mqtt_sn.Handlers.QosLevels.{puback, pubrec, pubcomp}
use rust_mqtt_sn.Client.{Client, key}
use rust_mqtt_sn.Client as Sending
use rust_mqtt_sn.Client.StateMachine.{state_active, transition}
use rust_mqtt_sn.Client.TimingWheel
use rust_mqtt_sn.Client.TimingWheel.{Wheel, done, schedule}
use rust_mqtt_sn.Client.TimingWheel.Entries.{IsRunning, durations}
use rust_mqtt_sn.Client.TimingWheel.Backoff.{IsAt, ticks, sent_for, plan, left, ticks-plan}
use rust_mqtt_sn.Client.TimingWheel.Times.{positions, resends}
use rust_mqtt_sn.Client.TimingWheel.Resends.{schedule-resends}
use rust_mqtt_sn.Client.Handlers.Connect
use rust_mqtt_sn.Client.Handlers.Publish
use rust_mqtt_sn.Client.Loop.{round, begin, publish, subscribe}
use rust_mqtt_sn.Client.Loop.Stops.{round-stops}
use rust_mqtt_sn.Client.Threads.{
  World, Reach, start, next, connects, datagram, connecting, looping, stopped, next_phase, arrive,
  new, empty_buffer, schedule_first, expire_once,
}
use rust_mqtt_sn.Client.Threads.Arrivals.{IsState}
use rust_mqtt_sn.Client.Threads.Running.{Reach-runs}
use rust_mqtt_sn.Client.Threads.Accepts.{connack-twice}
use rust_mqtt_sn.Client.Acks.{
  IsIdle, exchange, suback, publish-acked, subscribe-resent, publish_2-resent,
}
use rust_mqtt_sn.Client.Interop.{publish_bytes, short_header, publish-read, pubrel-unreleased}
use rust_mqtt_sn.Wire.Flags.{flag_qos_level, flags_set}
use rust_mqtt_sn.Topics.Subscriptions.{subscription}
use rust_mqtt_sn.Handlers.Subscribe as BrokerSubscribe
use rust_mqtt_sn.Client.Loop.{subscribe_topic_id}
use rust_mqtt_sn.Client.TopicIds.{subscribe_topic_id-misread}
use rust_mqtt_sn.Tests.Data.{broker, broker-IsReady, header}

abbrev idle_wheel : Wheel RetransmitHeader (List ℕ)
idle_wheel = record {
  max_slot = 1280;
  sleep_duration = 100;
  default_duration = 3;
  cur_counter = 0;
  slot_vec = no_slots;
  hash = empty_map;
}

abbrev client_in : ℕ → Client
client_in state = record {
  transmit = [];
  schedule = [];
  cancel = [];
  subscribe = [];
  state = state;
  wheel = idle_wheel;
}

idle_wheel-IsRunning : IsRunning idle_wheel
idle_wheel-IsRunning = record { slots = omega arith; later = λ i. tt }

-- An active client.
abbrev resting : World
resting = record { client = client_in 0; phase = looping; buf = empty_buffer; wire = [] }

resting-IsIdle : IsIdle resting.client
resting-IsIdle = record {
  nothing_to_schedule = refl;
  nothing_to_cancel = refl;
  ready = record { running = idle_wheel-IsRunning; size = refl; wait = refl };
}

-- The client `c` has sent CONNECT to the address 9.
abbrev waiting : World
waiting = record {
  client = (begin (99 ∷ []) 9 (client_in 1)).1;
  phase = next_phase connecting (begin (99 ∷ []) 9 (client_in 1)).0;
  buf = empty_buffer;
  wire = [];
}

waiting-Reach : Reach waiting
unfolding new TimingWheel.new
waiting-Reach = start (connects (99 ∷ []) 9 (client_in 1) refl refl)

waiting-connecting : waiting.phase ≡ connecting
unfolding begin Connect.tx Sending.transmit Sending.schedule transition
waiting-connecting = refl

connack-twice_example :
    ((arrive waiting.phase 9 (3 ∷ 5 ∷ 3 ∷ []) waiting).phase ≡ looping)
    × ((arrive waiting.phase 9 (3 ∷ 5 ∷ 3 ∷ []) waiting).client.state ≡ state_active)
    × ((arrive looping 8 (3 ∷ 5 ∷ 0 ∷ []) (arrive waiting.phase 9 (3 ∷ 5 ∷ 3 ∷ []) waiting)).phase
        ≡ stopped)
connack-twice_example = connack-twice 3 3 9 [] 3 8 (0 ∷ []) waiting-Reach waiting-connecting

-- After a CONNACK.
abbrev connected : World
connected = arrive waiting.phase 9 (3 ∷ 5 ∷ 0 ∷ []) waiting

connected-Reach : Reach connected
connected-Reach = next waiting-Reach (datagram 9 (3 ∷ 5 ∷ 0 ∷ []) refl)

Reach-runs_example :
    ((u : World) × (schedule_first connected.client.schedule connected ≡ done u))
    × ((u : World) × (expire_once connected ≡ done u))
    × IsState connected.phase connected.client.state
Reach-runs_example = Reach-runs connected-Reach

abbrev k : RetransmitHeader
k = key 9 13 1 7

abbrev loaded : Wheel RetransmitHeader (List ℕ)
loaded = record idle_wheel {
  slot_vec = push no_slots 3 (k, 3);
  hash = put empty_map k (1 ∷ 2 ∷ []);
}

loaded-IsRunning : IsRunning loaded
loaded-IsRunning = record { slots = omega arith; later = λ i. ground arith }

loaded-IsAt : IsAt k (1 ∷ 2 ∷ []) (some (3, 3)) loaded
loaded-IsAt = (omega arith, omega arith, refl, λ i. ground arith)

ticks-plan_example :
    (w' : Wheel RetransmitHeader (List ℕ)) × (out : List (List (RetransmitHeader × List ℕ)))
    × (ticks 4 loaded ≡ done (w', out))
    × (sent_for k out ≡ plan 1280 4 (1 ∷ 2 ∷ []) (some (3, 3)))
    × IsRunning w'
    × IsAt k (1 ∷ 2 ∷ []) (left 1280 4 (some (3, 3))) w'
ticks-plan_example = ticks-plan 4 k (1 ∷ 2 ∷ []) (some (3, 3)) loaded loaded-IsRunning loaded-IsAt

schedule-resends_example :
    (w1 w2 w3 : Wheel RetransmitHeader (List ℕ)) × (out early : List
      (List (RetransmitHeader × List ℕ)))
    × (schedule k (1 ∷ 2 ∷ []) 3 idle_wheel ≡ done w1)
    × (ticks 2000 w1 ≡ done (w2, out))
    × (positions 0 (sent_for k out) ≡ resends)
    × ((i : ℕ) → durations k (w2.slot_vec i) ≡ [])
    × (w2.hash k ≡ none)
    × (ticks 1000 w1 ≡ done (w3, early))
    × (w3.hash k ≡ some (1 ∷ 2 ∷ []))
schedule-resends_example =
    schedule-resends k (1 ∷ 2 ∷ []) idle_wheel 2000 1000 idle_wheel-IsRunning refl (λ i. refl)
      (omega arith) (omega arith)

publish-acked_example :
    (w' : World) × (wheel : Wheel RetransmitHeader (List ℕ)) × (out : List
      (List (RetransmitHeader × List ℕ)))
    × (exchange (publish 1 7 qos_level_1 0 (72 ∷ []) 9) (puback 1 7) 9 resting ≡ done w')
    × (ticks 100 w'.client.wheel ≡ done (wheel, out))
    × (positions 0 (sent_for k out) ≡ [])
publish-acked_example = publish-acked 1 7 0 (72 ∷ []) 9 100 resting resting-IsIdle

subscribe-resent_example :
    (w' : World) × (wheel : Wheel RetransmitHeader (List ℕ)) × (out : List
      (List (RetransmitHeader × List ℕ)))
    × (exchange (subscribe (97 ∷ []) 5 qos_level_1 0 9) (suback 32 1 5 0) 9 resting ≡ done w')
    × (ticks 2000 w'.client.wheel ≡ done (wheel, out))
    × (positions 0 (sent_for (key 9 19 0 0) out) ≡ resends)
subscribe-resent_example =
    subscribe-resent (97 ∷ []) 5 qos_level_1 0 9 2000 32 1 0 resting resting-IsIdle (λ i. refl)
      (omega arith) (omega arith)

publish_2-resent_example :
    (w' : World) × (wheel : Wheel RetransmitHeader (List ℕ)) × (out : List
      (List (RetransmitHeader × List ℕ)))
    × (exchange (publish 1 7 qos_level_2 0 (72 ∷ []) 9) (pubrec 7) 9 resting ≡ done w')
    × (ticks 2000 w'.client.wheel ≡ done (wheel, out))
    × (positions 0 (sent_for (key 9 15 0 7) out) ≡ resends)
publish_2-resent_example =
    publish_2-resent 1 7 0 (72 ∷ []) 9 2000 resting resting-IsIdle (λ i. refl) (omega arith)
      (omega arith)

length-empty_buffer : length empty_buffer ≡ 1500
unfolding empty_buffer
length-empty_buffer = refl

-- A PUBLISH of five octets.
round-stops_example : (round (5 ∷ 12 ∷ 0 ∷ 0 ∷ 1 ∷ []) 9 empty_buffer (client_in 0)).0 ≡ panic
round-stops_example =
    round-stops (5 ∷ 12 ∷ 0 ∷ 0 ∷ 1 ∷ []) 9 12 empty_buffer (client_in 0) length-empty_buffer refl
      refl

publish-read_example :
    (Header.try_read (publish_bytes 1 7 1 0 (72 ∷ [])) 8 9 ≡ ok (short_header 9 8 12))
    × (PublishForm.try_read (publish_bytes 1 7 1 0 (72 ∷ [])) 8
        ≡ ok (Publish.new 1 7 1 0 (72 ∷ []), 7))
publish-read_example = publish-read 1 7 1 0 9 (72 ∷ []) (omega arith)

pubrel-unreleased_example :
    (octets : List ℕ) × ((round (pubrec 7) 9 empty_buffer (client_in 0)).1.transmit
      ≡ (9, octets) ∷ [])
    × Sends broker ((BrokerPubRel.recv octets 4 (header 7 16) broker).1) ((7, pubcomp 1792) ∷ [])
    × ((BrokerPubRel.recv octets 4 (header 7 16) broker).1.pub_msg_cache (7, 7)
        ≡ broker.pub_msg_cache (7, 7))
pubrel-unreleased_example =
    pubrel-unreleased 7 9 empty_buffer (client_in 0) (header 7 16) broker broker-IsReady
      (omega arith) (omega arith) refl

subscribe_topic_id-misread_example :
    (octets : List ℕ) × ((subscribe_topic_id 10 5 32 0 9 (client_in 0)).1.transmit
      ≡ (9, octets) ∷ [])
    × (subscription 12592 7
          ((BrokerSubscribe.recv octets (length octets) (header 7 18) broker).1.topics)
        ≡ some 32)
    × (subscription 10 7
          ((BrokerSubscribe.recv octets (length octets) (header 7 18) broker).1.topics)
        ≡ subscription 10 7 broker.topics)
unfolding flag_qos_level flags_set
subscribe_topic_id-misread_example =
    subscribe_topic_id-misread 10 5 1 0 9 12592 7 (client_in 0) (header 7 18) broker broker-IsReady
      (omega arith) (omega arith) (omega arith) refl
