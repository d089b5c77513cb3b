-- ===== src/Lib.antt =====
-- The actix MQTT client: the actors of src/actors and the client interface of src/client.rs.
--
-- The program is a set of actix actors. A call of the user (src/client.rs) becomes a message to
-- one of them. To send a packet that needs an answer, an actor stores a status with a status
-- actor, hands the packet to the sender, and sets a timer that asks for the status; the actor of
-- the answering packet removes or replaces the status. Whatever comes from the server goes
-- through the dispatch actor to the actor of its kind. Errors go to the user's error recipient,
-- and a stop goes to the stop actor, which passes it on to the actors registered with it.
--
-- How it is modelled. A handler is a function of the actor's state and the message, in a state
-- monad over a runtime (Runtime): `try_send` and `do_send` are answered by an arbitrary function
-- of the effects so far, and the effects are kept in a trace, newest first. A future or a timer
-- is an effect that names what it holds on to; the function that goes on with the response has
-- `finish` in its name and stands beside the handler. So a theorem is about all answers of all
-- mailboxes, except for those it names. The identifier counter is part of the state; an
-- arithmetic step on a `u16` wraps. Loops are recursion on lists. Only the retries of a message
-- that is never answered (Flight/Rounds, Control/Rounds), the calls of the parser (Stream/Wire)
-- and the exchange between two clients (Flight/Exchange) are recursion on fuel. Seven rounds are
-- enough, since a count over 5 ends them, and four turns, one for each packet; the theorems
-- there give the results; the parser is called once for each packet that was written.
--
-- Files, by the part of the program:
--   src/actors/mod.rs: Failure (the error handlers, `resend`), Failure/Laws; Failure/Reported,
--     Sending, Publishing, Controlling and Handlers are about what the handlers of packets do
--     when a send fails, but for those of CONNACK and of the disconnect actor, Failure/Explained
--     and Stops about why the client is told to stop.
--   src/actors/utils.rs, src/consts.rs: Ids, Ids/Window, Consts. src/actors/macros.rs: Started,
--     and the handler of a stop in Stop.
--   src/actors/actions/status.rs: Status, Status/Map (the `HashMap` as an association list),
--     Status/Laws (with the abstract table), Status/Kept.
--   src/actors/packets/mod.rs, src/actors/packets/macros.rs: Message (the messages of all actors
--     and their addresses), Sending (the helpers and the two generated families of actors),
--     Sending/Laws; Retry and Proofs/Bounded (the retry limit).
--   src/actors/packets/publish.rs: Publish/Send and Publish/Receive; Publish/Sender,
--     Publish/Levels, Publish/Receiver and Publish/Repeats have their theorems;
--     Proofs/Duplicates is about what comes twice.
--   src/actors/packets/pubrec.rs, pubrel.rs: Release. puback.rs, pubcomp.rs, suback.rs,
--     unsuback.rs and pingresp.rs there: Acks. Proofs/Exchange, Endless, Level2 and Answers are
--     about these and the actors below with the status actor; the checks in Proofs/Answers are
--     those that the handlers leave behind.
--   src/actors/packets/subscribe.rs, unsubscribe.rs: Subscribe, Unsubscribe, and Filters below
--     each.
--   src/actors/packets/connect.rs, connack.rs: Connect, Connect/Handshake, Connect/Timeout (the
--     timer). pingreq.rs: Ping, Ping/Tick (with the status actors).
--   src/actors/packets/disconnect.rs: Disconnect, Disconnect/Graceful and Disconnect/Pending
--     (with the status actor); once the actor has stopped itself, it takes part in no step.
--   src/actors/actions/stop.rs, dispatch.rs: Stop, Stop/Laws, Dispatch, Dispatch/Routes. send.rs
--     and recv.rs: Stream, Stream/Reading, Stream/Writing, and Stream/Wire from one to the
--     other.
--   src/client.rs: Client (the interface), Client/Start (`start_actors`), Client/Session,
--     Client/Shutdown, Client/Connected (with the handshake).
--   The parts together: Flight is the system of the actors of the publish packets, their
--     futures, their status actor and the disconnect actor, as a relation of steps.
--     Flight/Questions, Asking, Futures, Lookup, Tracked and Drained are about the question that
--     each status waits for; Flight/Stored and Sound about the statuses themselves;
--     Flight/Rounds and Unanswered about a message that is never answered, Flight/Phases about
--     the second phase at QoS 2 where its answer is lost, and Flight/Full about a user who takes
--     nothing; Flight/Loopback, Exchange and Settled about a message from client to client, and
--     all its acknowledgements, Flight/Lost about one whose first packets are lost, and
--     Flight/Repeated about one whose first answers are. Network is any number of clients, with
--     loss, repetition and reordering of all that is sent between them and in them;
--     Network/Published and Integrity are about where the messages for the users come from, and
--     Network/Answering, Causes and Acknowledged about where the acknowledgements do. Control
--     has the handlers and futures of the other actors; Control/Marks, Sending, Keeping,
--     Connection and Connected are about all of them with the status actor of the connection, in
--     any order, and Control/Rounds and Unanswered about a subscription or an unsubscription
--     that is never answered. Wiring has the actors as they are wired for recipients of the
--     user, and Wiring/Activity all that they and their futures do.
--   Common has what the modules share; Observe names what theorems look for in a trace; Examples
--     has the theorems at concrete inputs.
--
-- Parameters. Mqtt is the interface of the mqtt-protocol crate that the client calls: its
-- packets and constructors. The encoder and the parser are arguments of Stream; Stream/Wire
-- assumes that the parser gets back what the encoder wrote, and fails at the end of the
-- connection. The theorems on messages and acknowledgements between clients assume `IsLawful`:
-- that the accessors of the packets return what these were made from. The instances in Examples
-- have both.
--
-- Not modelled: log lines and the texts of errors, whose kinds are kept; how full a mailbox is,
-- for which the runtime's refusals stand (the capacities that src/actors/macros.rs sets are
-- kept); a server, in whose place the theorems on two clients put the second client; the clock,
-- of which the delays are kept; the tests of src/lib.rs.
pub mod Common
pub mod Mqtt
pub mod Network
pub mod Message
pub mod Runtime
pub mod Consts
pub mod Started
pub mod Flight
pub mod Control
pub mod Wiring
pub mod Failure
pub mod Ids
pub mod Observe
pub mod Retry
pub mod Status
pub mod Sending
pub mod Subscribe
pub mod Unsubscribe
pub mod Release
pub mod Acks
pub mod Publish
pub mod Connect
pub mod Ping
pub mod Disconnect
pub mod Stop
pub mod Dispatch
pub mod Stream
pub mod Client
pub mod Proofs
pub mod Examples
