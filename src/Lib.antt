-- ===== src/Lib.antt =====
-- gatesvr: a QUIC gateway that keeps client sessions and relays messages between them and upstream
-- services. This library models the parts of the gateway that decide what is sent, in which order and
-- to whom, and the codec of the stream.
--
-- A client logs in over a stream of length-prefixed frames (internal/message/codec.go). The gateway
-- keeps a session for it (internal/session/session.go), found by its id or by the user
-- (internal/session/manager.go). What the server sends carries consecutive numbers and goes
-- through the ordered queue of the session (internal/session/ordered_queue.go), which holds back what
-- comes too early and resends what is not acknowledged. Notifies of upstream services can be bound to a
-- request of the client (internal/session/notify_ordering.go), and are then sent right before or after
-- its response. The overload protector (internal/gateway/overload_protector.go) refuses connections
-- and requests above the configured limits, and a registry names the upstream services
-- (internal/upstream/services.go), to which a manager keeps clients (internal/upstream/manager.go).
--
-- The server (internal/gateway) handles a message in one step (server_connection.go, handlers.go). A
-- business request that passes the checks of its number, of the state of the session and of the
-- load is sent to an upstream service at once, or queued for a worker (async_processor.go). Answers and
-- pushes take their numbers in ordered_sender.go; unicast_service.go and server_push.go push what
-- upstream services send to sessions.
--
-- A second server can stand by (internal/backup). The primary streams its sessions over a bounded
-- channel in batches (sync_service.go); the standby checks them (data_validator.go,
-- sync_receiver.go). Both exchange heartbeats (heartbeat.go), from which the standby finds that the
-- primary has failed and takes over (failover.go); backup_manager.go starts and switches these
-- services. All of them share the session manager.
--
-- Files:
--   Prelude, Prelude/*     shared tests, lists, machine integers, and Go maps as association lists
--   Proto                  the messages of proto/message.proto and proto/upstream.proto
--   Message                ReadMessage and WriteMessage of internal/message/codec.go
--   Message/Create         its encoders, decoders and Create functions
--   Message/Framing        frames written and read back, cut streams
--   Message/Conversation   requests and pushes from creation to decoding
--   Session/Ordering       internal/session/notify_ordering.go: MessageOrderingManager
--   Session/Ordering/*     what is bound and handed out (Pending), and what expires (Expiry)
--   Session/Heap           container/heap over a slice, as the queue uses it, with its laws below it
--   Session/Queue          internal/session/ordered_queue.go: OrderedMessageQueue
--   Session/Queue/*        its invariant (Shape, Invariant), the order of first transmissions (Firsts,
--                          Order), arrivals in any order (Progress, Reorder), what holds it back or
--                          lets it through (Blocking, Idle), and what helps their proofs (Cases,
--                          Rounds)
--   Session/State          internal/session/session.go: the fields and the state machine
--   Session/State/*        client numbers and activation (Login), reconnection (Inherit)
--   Session/Send           internal/session/session.go: ProcessNotify, ProcWithNotifyBinds, sending
--   Session/Send/*         what a request sends (Bodies, Sequence), what a notify adds (Binding)
--   Session/Manager        internal/session/manager.go: the store of sessions and its two indexes
--   Session/Manager/*      calls that reach a session by its id (Calls), creation and reconnection
--                          (Index), removal (Removal), expiry (Expiry), what a start request
--                          binds (Binding), and that the indexes stay well formed (WellFormed,
--                          Histories)
--   Gateway/Overload       internal/gateway/overload_protector.go: window and counters
--   Gateway/Overload/*     what the window counts (Window), which requests pass (Requests), the limits
--                          on connections and on calls upstream (Limits), when it answers (Buckets)
--   Gateway/Sender         internal/gateway/ordered_sender.go: OrderedMessageSender
--   Gateway/Sender/*       the bodies that a wire carries (Bodies), a number that is lost (Gap)
--   Gateway/Router         internal/gateway/upstream_routerold.go: which service an action belongs to
--   Gateway/Server         the state that the handlers share, with its facts below it (Facts)
--   Gateway/Notifies       internal/gateway/handlers.go: the notifies around a response, as run (Runs)
--   Gateway/Async          internal/gateway/async_processor.go: AsyncRequestProcessor
--   Gateway/Handlers       internal/gateway/handlers.go: one function for each handler
--   Gateway/Handlers/*     what a business request sends (Answers), what lets it through (Gate), and
--                          that no handler touches the count of connections (Connected)
--   Gateway/Unicast        internal/gateway/unicast_service.go and server_push.go
--   Gateway/Dispatch       internal/gateway/server_connection.go: handleMessageEvent, with what a
--                          message leaves of the counters below it (Connected)
--   Gateway/Connection     internal/gateway/server_connection.go: a connection from its accept to its
--                          end, which releases it (Released)
--   Upstream/Services      internal/upstream/services.go: UpstreamServices
--   Upstream/Services/*    what a history of changes leaves (Registry)
--   Upstream/Clients       internal/upstream/manager.go: ServiceManager
--   Upstream/Clients/*     which clients a history leaves (Pool)
--   Backup/Records         internal/backup/types.go
--   Backup/Validator       internal/backup/data_validator.go, with what valid data is (Meaning) and that
--                          exactly this passes (Exact)
--   Backup/Heartbeat       internal/backup/heartbeat.go: HeartbeatService
--   Backup/Sync            internal/backup/sync_service.go: SyncService
--   Backup/Sync/*          its histories (Batches), the order of the stream (Orderly), a write that
--                          fails (Delivery), the end of the stream (Stopping, Shutdown)
--   Backup/Receiver        internal/backup/sync_receiver.go, and what the standby keeps (Replica)
--   Backup/Failover        internal/backup/failover.go: FailoverService
--   Backup/Failover/*      histories of beats and detections (Detection), when the standby takes over
--                          (Takeover, Silence)
--   Backup/Standby         internal/backup/backup_manager.go: BackupManagerImpl
--   Backup/Standby/*       a switch that never returns (Deadlock), one that is undone (Relapse)
--   Tests                  in each directory: runs on concrete inputs, and instances of the theorems
--
-- Conventions. A Go struct is a record, a method a function from the old state to the new one, with
-- the result beside it, and an error a constructor of a data type or an Option. uint64 and uint32
-- counters wrap (u64, u32); signed numbers are integers, and where the source adds or subtracts them
-- they wrap at 64 bits (add64, sub64). Times are numbers of nanoseconds of a clock that only grows,
-- and each method takes the time of its call. The mutex of a component makes each of its methods one
-- step; a history is a list of calls, so every interleaving of threads is some history. A Go map is an
-- association list with one entry to a key; where Go visits a map in any order, the model takes the
-- order of its list. The callback of a queue is a function of the number of the call and the message,
-- so it can fail at will, and the wire logs the messages that it accepted. Protobuf, the writer of a
-- stream and the clock are parameters.
--
-- Fuel. The loop over the waiting queue takes one message off the heap in each round that goes on, so
-- the length of the heap bounds it; enqueue_all_sorts shows that this is enough to send everything.
--
-- Bounds. The comparison of float64 numbers in the overload protector is one of integers, which is the
-- same below 2^53. The channel of the stream to the standby has a buffer. The intervals of the tickers
-- are positive, which Go requires.
--
-- Parameters. `ServerEnv` holds what the handlers take from outside: the outcome of an upstream call,
-- the clocks, the writes to the streams, strconv.ParseInt and the texts of errors. `Json` reads the
-- payload of a synchronisation message as a handler wants it, the checksum is any function of the payload,
-- and `Peer` says for each write of a stream whether it fails and how. The callbacks of the failover
-- service are functions of the number of the call. The loops of goroutines are turns, which a history
-- may take at any time and in any order, and a dial is the answer that a turn is given.
--
-- Not modelled: the network itself, the gRPC layer, the demonstration of an upstream service and its
-- client (internal/upstream/server.go, unicast_client.go); the start and the stop of the listeners
-- (internal/gateway/server.go, server_start.go); the HTTP handlers, metrics, statistics and logging,
-- which only report; checksums and JSON, which are the standard library's; the configuration files, and
-- the programs in cmd.
pub mod Prelude
pub mod Proto
pub mod Message
pub mod Session
pub mod Gateway
pub mod Upstream
pub mod Backup
