-- ===== src/Lib.antt =====
-- synp: a WebSocket gateway between the clients of a business and its servers.
--
-- A client connects, is given a session in Redis and a connection, and sends messages, which the
-- lifecycle handler takes once each and hands to the queue of the business servers. The servers
-- push messages to the clients, which are sent again until they are acknowledged. How the parts
-- use each other: the server takes a token of the limiter, has the upgrader make a session, has the
-- connection manager make a connection, and calls the handlers of connection events; these call
-- the message handlers, which write to connections, the queue and the retransmit manager.
--
-- Files and code:
--   Limiter: internal/pkg/limiter/token_limiter.go. The channel is a number of elements with a
--     capacity; Start is a Grower that moves by on_tick (the timer), move (a send, or the store of
--     the capacity) and look (a context that is done). Bounds has the invariant, Circulation the
--     account of the tokens, Growth what becomes of the growing capacity.
--   ConnManager: internal/ws/conn/conn_manager.go, with DeviceConns as a list of pairs. Lookup, Counts
--     and Replaced have the theorems on finding, counting and closing; Abstract is a table of places
--     that calls change, which the manager is compared with, and History runs over the calls.
--     Threads has NewConn, RemoveConn and RemoveUserConn in goroutines that are interleaved, with the
--     DeviceConns as objects; Frame and Apart are about different users, Alone, Removal and Sequential
--     about one call against the same call in one step, Serial about all the calls of a user.
--   Conn: internal/ws/conn/conn.go. Conn.Defs is the identity of a connection, Settings the options,
--     Sending the method trySend, Closing the methods Send, Close and UpdateActivityTime. Loops has
--     sendLoop and receiveLoop, each with the places where it can stand, as moves beside the calls of
--     others. sendLoop has the places of trySend: before the check of the context, in the call of
--     Write, and in the pause; what Write returns and Next grants comes with the event. Ordered and
--     Fifo, Ended and Quiet are about runs of such events.
--   Retransmit: internal/pkg/retransmit/manager.go. A timer is a flag of its task; `run` is what it
--     does when it fires. Tasks, Started, Counts, History, Absent and Attempts have the theorems. Threads has
--     the same methods in goroutines that are interleaved, with tasks as objects; Counting is about the
--     counter, Silence about a key that was deleted, Flight and Attempts about one task.
--   Message, Handlers: internal/pkg/message with its folders upstream and downstream.
--   Lifecycle: internal/ws/conn/lifecycle/handler.go; Lifecycle.Program has the handlers that
--     internal/pkg/providers/module.go registers, Lifecycle.Registered the Handler as a whole, on Redis and
--     the connection objects, which its OnDisconnect closes; Disconnected has the theorem. Threads
--     has messages that arrive at the same time, in goroutines that are interleaved.
--   Wrapper: HandlerWrapper of types.go.
--   Session: internal/pkg/session/types.go and internal/pkg/session/redis with its Lua script.
--   Upgrader: internal/ws/upgrader.go and internal/pkg/auth/jwt_validator.go. A Handshake holds the
--     variables that the callbacks of Upgrade share, with Redis; Accepted has the theorems.
--   Server: internal/ws/server.go. accept_conn runs over the turns of the accepting loop that are given,
--     handle_conn gives the calls of one connection in their order with the deferred ones, and
--     consume_push_message is a message of the business servers; Admission, Visits,
--     Protocol and Pushed have the theorems. Server.Running has NewServer, Start, Shutdown and GracefulShutdown in two parts,
--     up to its wait and from it on, with config.go and options.go beside it and newKafkaConsumers of
--     internal/pkg/providers/kafka_consumer.go; Starting and Ending have the theorems.
--   Gateway: internal/ws/gateway/consumer.go. Start gives what it has started, and consume runs over the
--     arrivals of its select; kafka_factory is NewConsumer of the factory for Kafka, where the panic of a
--     reader with an invalid configuration has no result. Pushing puts it together with the server and the handlers.
--   Mq: internal/pkg/xmq/consumer/kafka_consumer.go and internal/pkg/xmq/produce/kafka_producer.go. A
--     KafkaConsumer has a Phase, in which its reading goroutine stands; Steps is the relation of the
--     steps of goroutine and callers, with Reach for the states that they lead to.
--   Kafka: internal/pkg/providers/kafka.go, with its configuration in Settings and newKafkaClient in
--     Client, and kafka_oauth.go in Oauth, where a call of getAccessToken is given the mechanism as it
--     is under each of the two locks. Secured and Token have the theorems.
--   Codec: internal/pkg/codec and internal/pkg/providers/codec.go.
--   Frames: internal/pkg/xws/reader.go and writer.go, over the frames of a connection; Made has their
--     constructors.
--   Wiring: what the application makes its parts with, from cmd/main.go, the providers retransmit.go and
--     redis.go of internal/pkg/providers, internal/ws/module.go and internal/ws/conn/module.go. Program has
--     main, the other constructors and internal/app/app.go; main runs if each constructor succeeds.
--   Compression: internal/pkg/compression/config.go.
--   Fault: the errors, with errors.Is, the wrapping of fmt.Errorf and multierr.Append.
--   Prelude: lists over native numbers, byte strings, decimal printing, association lists, the
--     wrap-around of int64, int32 and uint64, and the places of goroutines.
--
-- Parameters, for code of other packages: SyncMap (xsync.Map), Redis (go-redis and the server),
-- OptionPackage (option.Apply), RetryPackage (the backoff strategy of trySend, which may be nil), WsPackage (the
-- handshake of gobwas/ws), Inputs (url queries, EqualFold, the JWT manager), ProtoPackage (protojson
-- and proto), ServerOptions (option.Apply), Answers (what pushing, marshalling and producing return),
-- and, as arguments, what viper, the HTTP client, json, x509, scram, the flate reader and writer, the
-- reader of kafka-go and the network return. SyncMap and Redis have an
-- instance each, list_map and local_redis, by which the theorems are applied to concrete inputs.
--
-- Strings are lists of bytes. Counters keep their wrap-around. Fuel: decimal prints n with n + 1
-- steps, enough since each divides by ten; send_rounds has one round more than there are retries,
-- enough since each pause takes one of them, and try_send never runs out of it.
--
-- Each operation is one step, except those of the limiter, of the consumer of Kafka and of the two
-- goroutines of a connection, and in the three modules Threads, where a move is one access of what the
-- goroutines share: a call of the map, of sync/atomic or of Redis, a method of DeviceConns under its
-- lock, a timer that is made or stopped, a call of a message handler. The other goroutines that interleave inside an operation, logging and
-- deadlines are not modelled, nor is the rate limiter of a connection, which delays a read. Not
-- modelled either: the order in which the fx library calls the constructors and the hooks, and the methods
-- that only return a field or a name.
pub mod Prelude
pub mod Fault
pub mod SyncMap
pub mod Redis
pub mod Session
pub mod Limiter
pub mod Compression
pub mod Conn
pub mod ConnManager
pub mod Message
pub mod Retransmit
pub mod Handlers
pub mod Lifecycle
pub mod Wrapper
pub mod Upgrader
pub mod Server
pub mod Mq
pub mod Gateway
pub mod Kafka
pub mod Frames
pub mod Codec
pub mod Wiring
