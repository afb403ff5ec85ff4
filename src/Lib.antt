-- ===== src/Lib.antt =====
-- A model of the broker and the client of Rust_MQTT-SN, MQTT-SN in Rust, and the theorems about
-- them.
--
-- The program. A datagram of a client reaches `MqttSnClient::handle_ingress`
-- (lib/broker-lib/src/broker_lib.rs), which starts the sender's keep-alive timer again, reads the
-- header of the message, asks whether the sender has a connection, and calls the `recv` function
-- of the message's type. The handlers share global maps behind mutexes: the connections and
-- client ids, the topic names and subscriptions, the caches of publications, and two timing
-- wheels, which have a thread each. What a handler sends goes into the egress channel.
--
-- A client (lib/client-lib/src/ClientLib.rs) sends CONNECT and waits for CONNACK (`connect`), and
-- then handles what it receives in `rx_loop`, in one buffer for all datagrams; the application
-- publishes and subscribes beside it. What is to be sent, and which retransmission timers begin
-- and end, goes through channels to a sending thread and to the three threads of a timing wheel
-- of its own (TimingWheel2.rs), in which the time between two sendings doubles.
--
-- The files, and the code that each of them models (paths below lib/broker-lib/src unless they
-- begin with lib):
--   * Prelude, Outcome, Exec: shared helpers; `Ok`, `Err` and panic; handlers as actions on the
--     state, which keep what was changed before an error, and the rules for their invariants.
--   * Wire: the constants of lib.rs, flags.rs (Flags, FlagBits), msg_hdr.rs (Header, Framing),
--     the readers and writers that the derive of lib/getset/src generates (Reader, Messages, one
--     module for each message struct), and the round trips.
--   * Filter: has_wildcards, valid_filter and match_topic of filter.rs (Levels, Matching and
--     Validity are about them), and in Sets the struct Filter with its shared sets; Sharing and
--     Subscribing are about who subscribed to what, Matches about what a topic finds. Maps has
--     Filter2 and the wildcard maps of insert_filter and match_topics, MapMatches and Sorted are
--     about whom they find.
--   * Bisetmap: what the model takes the crate `bisetmap` to do, and a list of pairs that does
--     it.
--   * Topics: the registry of topic names and the subscriptions of filter.rs; Registry is about
--     the ids of names, Subscriptions about who gets a publication.
--   * Wheel, KeepAlive, Retransmit: keep_alive.rs and retransmit.rs, wheel by wheel.
--   * Connection: the types of connection.rs.
--   * Broker: the state that the handlers share (the globals of connection.rs, client_id.rs,
--     filter.rs, pub_msg_cache.rs, asleep_msg_cache.rs, retain.rs, the wheels, the egress
--     channel); Clients models the functions of connection.rs and client_id.rs, Sending those of
--     publish.rs that send; Moves and Migration are about a client that comes from a new address,
--     Delivery, Steps, Wills, Asleep and PublishForm about what is sent and kept.
--   * Handlers: `send` and `recv` of each message file, in a module with the message's name;
--     QosLevels, ExactlyOnce, Subscribing and Sessions are about them.
--   * Dispatch: the loop of handle_ingress and its table; Gate is about what it refuses.
--   * Timers: what the two threads do to the broker in a tick.
--   * Isolation: what a datagram leaves alone, handler by handler and for the whole loop.
--   * Client (paths below lib/client-lib/src): the state and the channels of `MqttSnClient`;
--     Consts is lib.rs, StateMachine is StateMachine.rs, TimingWheel is TimingWheel2.rs; Handlers
--     has `rx` and `tx` of each message file, Messages the structs that differ from the broker's;
--     Loop is `connect`, `rx_loop` and the calls of the application in ClientLib.rs, with Decimal
--     for the `format!` of a topic id; Threads is what the threads do step by step, in any order,
--     and the worlds that they reach. TimingWheel.Entries, Emptied, Backoff, Kept, Times and
--     Resends are about when a message is sent again and how long the wheel keeps it; Loop.Stops
--     about what ends the receiving thread;
--     Threads.Arrivals, Running and Accepts about the worlds that are reached; Acks about which
--     answers end a timer. Interop and TopicIds put client and broker together: what one writes
--     and the other reads.
--   * Tests: the theorems at concrete inputs.
--
-- How the code is read. Octets and machine words are natural numbers with the wrap-around of a
-- release build written out; a text is the list of its octets; an address is a number; a HashMap
-- is the function that its `get` is, and a BisetMap is a parameter with the laws that its
-- documentation states. A handler runs from its beginning to its end: the theorems are about
-- whole handlers and whole ticks, one after the other. That a `try_lock` of a wheel finds the
-- lock taken is a flag of the wheel, which a call does not change. Only the client's threads take
-- their steps in any order. An error is told by its cause, since the text of an error is only
-- logged. Loops are recursions on the list that they run over, so no fuel is needed; only the
-- digits of a topic id have fuel, 5, which is enough for the 65536 ids (parse_u16-decimal in
-- Client.TopicIds). A call of the client's wheel that would lock a slot that it has locked itself
-- is told apart from a panic. A ready broker is one whose egress channel is open and whose
-- retransmission wheel is not locked. A keep-alive wheel is covered if every address of its map
-- stands in a slot that is emptied between now and its deadline (KeepAlive.Deadlines), and the
-- deadline has not passed.
--
-- Not modelled: sockets, multicast, DTLS and the channels themselves, which are I/O; a lock that
-- is poisoned by a panic; the 64-bit counter of the wheels as wrapping; the modules of
-- lib/broker-lib/src that are not part of the broker's build; of lib/client-lib, Filter.rs,
-- Connection.rs with Connect::rx, and the message files without a function that the client calls;
-- lib/mqtt-sn-lib, an older copy of the same code; the applications under apps; and the copies of
-- other projects under lib.
pub mod Prelude
pub mod Outcome
pub mod Wire
pub mod Wheel
pub mod KeepAlive
pub mod Connection
pub mod Retransmit
pub mod Filter
pub mod Bisetmap
pub mod Exec
pub mod Topics
pub mod Broker
pub mod Handlers
pub mod Dispatch
pub mod Client
pub mod Timers
pub mod Isolation
mod Tests
