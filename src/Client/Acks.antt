-- ===== src/Client/Acks.antt =====
-- Whether an acknowledgement ends the timer of the message that it answers: `tx` and `rx` of the
-- messages of lib/client-lib/src with the threads of TimingWheel2.rs.
use rust_mqtt_sn.Prelude.{
  ℕ, ◌+◌, ◌*◌, ◌≡◌, ◌≢◌, ◌≤◌, refl, List, [], ◌∷◌, ◌++◌, arith, nat_eq, ap, ◌∙◌,
}
use rust_mqtt_sn.Prelude.Bytes.{high, low}
use rust_mqtt_sn.Exec.{Exec}
use rust_mqtt_sn.Retransmit.{header_eq}
use rust_mqtt_sn.Wire.Flags.{qos_level_1, qos_level_2, topic_id_type_normal}
use rust_mqtt_sn.Wire.Messages.PubAck as PubAckForm
use rust_mqtt_sn.Wire.Messages.Publish as PublishForm
use rust_mqtt_sn.Wire.Messages.SubAck as SubAckForm
use rust_mqtt_sn.Wire.Messages.Subscribe as SubscribeForm
use rust_mqtt_sn.Handlers.QosLevels.{puback, pubrec}
use rust_mqtt_sn.Client.{Client, key, transmit, schedule, cancel}
use rust_mqtt_sn.Client.TimingWheel
use rust_mqtt_sn.Client.TimingWheel.{Wheel, Turn, done}
use rust_mqtt_sn.Client.TimingWheel.Entries.{durations}
use rust_mqtt_sn.Client.TimingWheel.Backoff.{ticks, sent_for}
use rust_mqtt_sn.Client.TimingWheel.Times.{positions, resends}
use rust_mqtt_sn.Client.TimingWheel.Resends.{cancel-resends, cancel-silent, schedule-IsRunning}
use rust_mqtt_sn.Client.Handlers.PubAck
use rust_mqtt_sn.Client.Handlers.PubRec
use rust_mqtt_sn.Client.Handlers.PubRel
use rust_mqtt_sn.Client.Handlers.Publish
use rust_mqtt_sn.Client.Handlers.SubAck
use rust_mqtt_sn.Client.Handlers.Subscribe
use rust_mqtt_sn.Client.Loop.{round, dispatch, publish, subscribe}
use rust_mqtt_sn.Client.Threads.{World, Header, looping, arrive, schedule_first, cancel_first}
use rust_mqtt_sn.Client.Threads.Arrivals.{IsReady}

-- The channels to the wheel are empty.
pub record IsIdle (c : Client) : Type 0 where
  pub nothing_to_schedule : c.schedule ≡ []
  pub nothing_to_cancel : c.cancel ≡ []
  pub ready : IsReady c.wheel

-- A call of the application, the thread that schedules, an answer to an active client, and the
-- thread that cancels, one after the other.
abbrev pub exchange : Exec Client (Unit {0}) → List ℕ → ℕ → World → Turn World
exchange call answer addr w =
    let called = (call w.client).1 in
    TimingWheel.◌>>=◌ (schedule_first called.schedule (record w { client = called }))
      λ w1. let w2 = arrive looping addr answer w1 in done (cancel_first w2.client.cancel w2)

-- What the call puts into the channel to the wheel.
publish-schedules :
    (topic_id m retain : ℕ) (payload : List ℕ) (addr : ℕ) (c : Client)
    → IsIdle c
    → (bytes : List ℕ) × ((publish topic_id m qos_level_1 retain payload addr c).1.schedule
        ≡ (key addr 13 topic_id m, bytes) ∷ [])
      × ((publish topic_id m qos_level_1 retain payload addr c).1.wheel ≡ c.wheel)
      × ((publish topic_id m qos_level_1 retain payload addr c).1.cancel ≡ [])
unfolding publish Publish.tx transmit schedule
publish-schedules topic_id m retain payload addr c i = (
  PublishForm.try_write (Publish.new topic_id m qos_level_1 retain payload),
  ground (arith, i.nothing_to_schedule),
  refl,
  i.nothing_to_cancel,
)

-- What a PUBACK of these ids puts into the other channel.
puback-cancels :
    (topic_id m addr : ℕ) (buf : List ℕ) (c : Client)
    → ((round (puback topic_id m) addr buf c).1.cancel ≡ c.cancel ++ (key addr 13 topic_id m ∷ []))
      × ((round (puback topic_id m) addr buf c).1.wheel ≡ c.wheel)
unfolding round dispatch PubAck.rx PubAckForm.try_read cancel
puback-cancels topic_id m addr buf c = ground arith

-- An exchange whose call schedules `k` and whose answer cancels `j`.
exchange-wheel :
    (call : Exec Client (Unit {0})) (answer : List ℕ) (addr : ℕ) (w : World) (k j : Header)
    (bytes : List ℕ) (wheel1 : Wheel Header (List ℕ))
    → w.client.wheel.default_duration ≡ 3
    → (call w.client).1.schedule ≡ (k, bytes) ∷ []
    → (call w.client).1.wheel ≡ w.client.wheel
    → (call w.client).1.cancel ≡ []
    → ((c : Client)
        → ((round answer addr w.buf c).1.cancel ≡ c.cancel ++ (j ∷ []))
          × ((round answer addr w.buf c).1.wheel ≡ c.wheel))
    → TimingWheel.schedule k bytes 3 w.client.wheel ≡ done wheel1
    → (w' : World) × (exchange call answer addr w ≡ done w')
      × (w'.client.wheel ≡ (TimingWheel.cancel j wheel1).1)
unfolding arrive
exchange-wheel call answer addr w k j bytes wheel1 wait s same none_ answered put_in =
    let called = (call w.client).1 in
    let c1 : Client = record called { schedule = []; wheel = wheel1 } in
    let w1 : World = record w { client = c1 } in
    let w2 = arrive looping addr answer w1 in
    let (queue, wheel) = answered c1 in
    let head : w2.client.cancel ≡ j ∷ [] = queue ∙ ap (λ l. l ++ (j ∷ [])) none_ in
    let put : TimingWheel.schedule k bytes called.wheel.default_duration called.wheel
        ≡ done wheel1 =
      ap (λ x. TimingWheel.schedule k bytes x.default_duration x) same
      ∙ ap (λ n. TimingWheel.schedule k bytes n w.client.wheel) wait
      ∙ put_in in
    (
      cancel_first w2.client.cancel w2,
      rw (s, put) refl,
      ap (λ q. (cancel_first q w2).client.wheel) head ∙ ap (λ x. (TimingWheel.cancel j x).1) wheel,
    )

-- A publication of QoS 1 by an idle client, which is scheduled and then answered by a PUBACK with its
-- ids, is never sent again, however many ticks follow.
pub publish-acked :
    (topic_id m retain : ℕ) (payload : List ℕ) (addr n : ℕ) (w : World)
    → IsIdle w.client
    → (w' : World) × (wheel : Wheel Header (List ℕ)) × (out : List (List (Header × List ℕ)))
      × (exchange (publish topic_id m qos_level_1 retain payload addr) (puback topic_id m) addr w
          ≡ done w')
      × (ticks n w'.client.wheel ≡ done (wheel, out))
      × (positions 0 (sent_for (key addr 13 topic_id m) out) ≡ [])
publish-acked topic_id m retain payload addr n w i =
    let k = key addr 13 topic_id m in
    let (bytes, s, same, none_) = publish-schedules topic_id m retain payload addr w.client i in
    let (wheel1, put_in, r, size, wait) =
      schedule-IsRunning k bytes 3 w.client.wheel i.ready.running (omega arith) in
    let (w', run, left_) =
      exchange-wheel (publish topic_id m qos_level_1 retain payload addr) (puback topic_id m) addr w
        k k bytes wheel1 i.ready.wait s same none_ (λ c. puback-cancels topic_id m addr w.buf c)
        put_in in
    let (wheel, out, ticked_, quiet) = cancel-silent n k wheel1 r in
    (w', wheel, out, run, ap (ticks n) left_ ∙ ticked_, quiet)

-- The octets of a SUBACK.
abbrev pub suback : ℕ → ℕ → ℕ → ℕ → List ℕ
suback flags topic_id m return_code =
    8 ∷ 19 ∷ flags ∷ high topic_id ∷ low topic_id ∷ high m ∷ low m ∷ return_code ∷ []

subscribe-schedules :
    (topic : List ℕ) (m qos retain addr : ℕ) (c : Client)
    → IsIdle c
    → (bytes : List ℕ) × ((subscribe topic m qos retain addr c).1.schedule
        ≡ (key addr 19 0 0, bytes) ∷ [])
      × ((subscribe topic m qos retain addr c).1.wheel ≡ c.wheel)
      × ((subscribe topic m qos retain addr c).1.cancel ≡ [])
unfolding subscribe Subscribe.tx transmit schedule
subscribe-schedules topic m qos retain addr c i = (
  SubscribeForm.try_write (Subscribe.new topic m qos retain topic_id_type_normal),
  ground (arith, i.nothing_to_schedule),
  refl,
  i.nothing_to_cancel,
)

suback-cancels :
    (flags topic_id m return_code addr : ℕ) (buf : List ℕ) (c : Client)
    → ((round (suback flags topic_id m return_code) addr buf c).1.cancel
        ≡ c.cancel ++ (key addr 19 0 m ∷ []))
      × ((round (suback flags topic_id m return_code) addr buf c).1.wheel ≡ c.wheel)
unfolding round dispatch SubAck.rx SubAckForm.try_read cancel
suback-cancels flags topic_id m return_code addr buf c = ground arith

-- A SUBSCRIBE by an idle client whose wheel has no entry for it, with a message id other than 0, is
-- sent again at all its times although a SUBACK with its message id answered it.
pub subscribe-resent :
    (topic : List ℕ) (m qos retain addr n flags topic_id return_code : ℕ) (w : World)
    → IsIdle w.client
    → ((i : ℕ) → durations (key addr 19 0 0) (w.client.wheel.slot_vec i) ≡ [])
    → m ≢ 0
    → 1534 ≤ n
    → (w' : World) × (wheel : Wheel Header (List ℕ)) × (out : List (List (Header × List ℕ)))
      × (exchange (subscribe topic m qos retain addr) (suback flags topic_id m return_code) addr w
          ≡ done w')
      × (ticks n w'.client.wheel ≡ done (wheel, out))
      × (positions 0 (sent_for (key addr 19 0 0) out) ≡ resends)
subscribe-resent topic m qos retain addr n flags topic_id return_code w i fresh other l =
    let k = key addr 19 0 0 in
    let j = key addr 19 0 m in
    let (bytes, s, same, none_) = subscribe-schedules topic m qos retain addr w.client i in
    let (wheel1, wheel2, out, put_in, ticked_, sent) =
      cancel-resends k j bytes w.client.wheel n (ground arith) i.ready.running i.ready.size fresh
        l in
    let (w', run, left_) =
      exchange-wheel (subscribe topic m qos retain addr) (suback flags topic_id m return_code) addr
        w k j bytes wheel1 i.ready.wait s same none_
        (λ c. suback-cancels flags topic_id m return_code addr w.buf c) put_in in
    (w', wheel2, out, run, ap (ticks n) left_ ∙ ticked_, sent)

publish_2-schedules :
    (topic_id m retain : ℕ) (payload : List ℕ) (addr : ℕ) (c : Client)
    → IsIdle c
    → (bytes : List ℕ) × ((publish topic_id m qos_level_2 retain payload addr c).1.schedule
        ≡ (key addr 15 0 m, bytes) ∷ [])
      × ((publish topic_id m qos_level_2 retain payload addr c).1.wheel ≡ c.wheel)
      × ((publish topic_id m qos_level_2 retain payload addr c).1.cancel ≡ [])
unfolding publish Publish.tx transmit schedule
publish_2-schedules topic_id m retain payload addr c i = (
  PublishForm.try_write (Publish.new topic_id m qos_level_2 retain payload),
  ground (arith, i.nothing_to_schedule),
  refl,
  i.nothing_to_cancel,
)

-- The message id with its octets exchanged.
abbrev pub swapped : ℕ → ℕ
swapped m = low m * 256 + high m

pubrec-cancels :
    (m addr : ℕ) (buf : List ℕ) (c : Client)
    → ((round (pubrec m) addr buf c).1.cancel ≡ c.cancel ++ (key addr 15 0 (swapped m) ∷ []))
      × ((round (pubrec m) addr buf c).1.wheel ≡ c.wheel)
unfolding round dispatch PubRec.rx PubRel.tx transmit cancel
pubrec-cancels m addr buf c = ground arith

-- A publication of QoS 2 by an idle client whose wheel has no entry for it, with a message id whose
-- octets differ, is sent again at all its times although a PUBREC with its message id answered it.
pub publish_2-resent :
    (topic_id m retain : ℕ) (payload : List ℕ) (addr n : ℕ) (w : World)
    → IsIdle w.client
    → ((i : ℕ) → durations (key addr 15 0 m) (w.client.wheel.slot_vec i) ≡ [])
    → high m ≢ low m
    → 1534 ≤ n
    → (w' : World) × (wheel : Wheel Header (List ℕ)) × (out : List (List (Header × List ℕ)))
      × (exchange (publish topic_id m qos_level_2 retain payload addr) (pubrec m) addr w ≡ done w')
      × (ticks n w'.client.wheel ≡ done (wheel, out))
      × (positions 0 (sent_for (key addr 15 0 m) out) ≡ resends)
publish_2-resent topic_id m retain payload addr n w i fresh other l =
    let k = key addr 15 0 m in
    let j = key addr 15 0 (swapped m) in
    let (bytes, s, same, none_) = publish_2-schedules topic_id m retain payload addr w.client i in
    let (wheel1, wheel2, out, put_in, ticked_, sent) =
      cancel-resends k j bytes w.client.wheel n (ground arith) i.ready.running i.ready.size fresh
        l in
    let (w', run, left_) =
      exchange-wheel (publish topic_id m qos_level_2 retain payload addr) (pubrec m) addr w k j
        bytes wheel1 i.ready.wait s same none_ (λ c. pubrec-cancels m addr w.buf c) put_in in
    (w', wheel2, out, run, ap (ticks n) left_ ∙ ticked_, sent)
