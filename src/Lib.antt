-- ===== src/Lib.antt =====
-- wego: a small Go framework that runs servers and components, with persistent reminders on
-- PostgreSQL and publish/subscribe on Redis streams.
--
-- The parts and how they meet. A `Mesa` (mesa.go) holds servers (transport/) and components
-- (component.go); Run starts them in order and Shutdown stops them in the opposite order. Two
-- components come with the framework. The reminder service (reminder/service.go) polls a table
-- through its store (reminder/store.go), claims the reminders that are due, and has a notifier,
-- usually the dispatcher (reminder/dispatcher.go), send each. The pub/sub service
-- (pubsub/service.go) reads entries of a Redis stream for a subscription of its router
-- (pubsub/router.go), decodes them (pubsub/message.go), calls the subscription's handler, and
-- settles each entry through its store (pubsub/store.go).
--
-- The files, and the code that they are about:
--   Prelude, Action          Go's strings, 64-bit integers, maps, and methods with an error
--   Reminder/Model, History  reminder/model.go: the row, and the steps that a row may take
--   Reminder/Store           reminder/store.go: Create, GetByKey, List, CancelByKey,
--                            RescheduleByKey, ClaimDue, RequeueStaleProcessing, MarkSent, MarkRetry
--                            and MarkFailed
--   Reminder/Database        what the store relies on PostgreSQL for; Reminder/Memory is one such
--   Reminder/Options         reminder/options.go
--   Reminder/Service         reminder/service.go: retryDelay, dispatch, processBatch,
--                            recoverStaleProcessing, loop
--   Reminder/Lifecycle       reminder/service.go: Start, Stop
--   Reminder/Dispatcher      reminder/dispatcher.go
--   Mesa, Mesa/Registry      mesa.go and component.go: RegisterComponent, GetComponent
--   Mesa/Lifecycle           mesa.go: Run, Shutdown, stopItems, finishStopped, closeResources,
--                            Liveness, Readiness
--   PubSub, PubSub/Decoding  pubsub/message.go: Message.Validate, decodeEntry
--   PubSub/Router            pubsub/router.go: Subscription.Validate, Add, List, Freeze
--   PubSub/Settings          pubsub/options.go
--   PubSub/Service           pubsub/service.go: handleEntry, retryDelay; pubsub/store.go: Ack,
--                            MoveToDLQ, ScheduleRetry
--   PubSub/Promotion         pubsub/store.go: PromoteDueRetries and its script
--   PubSub/Service/Rounds    a message that is handled, scheduled, promoted and read again, until it is
--                            settled; Ending, Finishing and DeadLetters are about these rounds
--   PubSub/Starting          pubsub/service.go: Start; pubsub/store.go: EnsureGroup
--   PubSub/Polling           pubsub/service.go: consumeLoop, claimLoop, retryLoop; pubsub/store.go:
--                            ReadGroup, AutoClaim, pendingRetryCount
--   PubSub/Publishing        pubsub/service.go: Publish; pubsub/store.go: publishAttempt,
--                            PublishRetry; pubsub/message.go: messageFieldsWithAttempt
--   Reminder/Migrations      reminder/migrate.go
--   Micro                    transport/micro/selector.go: Select, hrwPick
--   Tcp                      transport/tcp/: the server's methods, and its goroutines as steps
--   Middleware               middleware/: Authenticate, AuthMiddleware, CORS
--   Config                   config.go, options.go and default_components.go: Validate, Options, the
--                            merging of configurations, and the options of the default components
--   Config/Runtime           mesa.go: New
--   Config/Telemetry         telemetry/runtime.go: the checks of New
--
-- Conventions. An instant is the number of nanoseconds since Go's zero time, so IsZero is the
-- number 0, and a duration added to an instant stops at the zero time. A duration, an `int` and
-- an `int64` are integers whose sums wrap around at 64 bits; ids and counts of retries of
-- reminders are natural numbers, as the table keeps them. Text is a list of code points, of
-- strings that are valid UTF-8; the table of lower-case letters is the argument `Unicode`.
--
-- The outside world is an argument. PostgreSQL is a `Database` with the laws `Lawful`: a statement
-- runs as written or fails, and one that fails may or may not have been applied; between two
-- statements other processes of the store may change the table, by the steps of History. The
-- notifier, the clocks, Redis, the subscription's handler, and the caller's servers and components
-- are functions on a state of their own (`Environment`, `Behaviour`), which do not change the
-- reminder or the delivery that they are handed. JSON, base64 and RFC 3339 are arguments (codecs).
-- The database keeps the instants of a new row with a precision of its own, `stored`; those that an
-- UPDATE writes are taken to be kept as they are. A mutex section of mesa.go is one step, and what
-- other goroutines do between two sections of Run is an argument of Run; what they do while the
-- items start is taken to come after the last start.
--
-- Of go-micro's selector, the cache, the filters and the strategy are arguments; of the configuration,
-- net.SplitHostPort and the reading of log levels. Lua's texts of numbers, headers and instants are
-- the argument `Lua`, of which it is assumed that decodeEntry reads them, numbers below 2 ^ 53, and
-- that it reads the JSON that json.Marshal writes of a retry whose texts are in UTF-8. The rounds of
-- a message take every command to be carried out and every promoted retry to be read by ReadGroup. The
-- migrations' database is a transaction whose statements may be refused, the argument `Faults`.
--
-- The goroutines of the TCP server are a step relation: a step is a section under the mutex, or one
-- call of a listener or a connection, and the steps come in any order.
--
-- The loops of the workers run on fuel, one unit for each tick or turn: a run of any number of turns
-- is a run of the program until its context is done. The rounds of a message run on fuel too, and
-- the number that is enough is proved. All other functions are total.
--
-- Not modelled: logging, tracing and the values of metrics; the rate limiter, which counts in floating
-- point; the HTTP and micro servers, which hand
-- their work to gin, net/http and go-micro; the exporter and the hooks of the telemetry; the clients
-- of etcd and PostgreSQL, and the example.
pub mod Prelude
pub mod Action
pub mod Reminder
pub mod Mesa
pub mod PubSub
pub mod Micro
pub mod Config
pub mod Tcp
pub mod Middleware
