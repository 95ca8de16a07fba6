-- ===== src/Lib.antt =====
-- go-lib, a library of Go packages. This development models its node pool, its in-memory locks,
-- its two-level cache, the middlewares of its HTTP client, its scheduler of jobs, its helpers for
-- goroutines, its time ranges, its request pool, its queues of RabbitMQ, its WebSocket client, its
-- queries of databases, and of its utilities the ordered map, the safe channels, single runs and the
-- assignment to slices. The HTTP classifier belongs to the node pool, a job of the scheduler runs under SafeFunc of the coroutines, and the
-- request pool has the responses of the HTTP client; the other parts do not use one another.
--
-- provider/nodepool sends requests to one of several endpoints. A pool (pool.go) keeps nodes, each
-- with its statistics, its circuit breaker and its rate limits (node.go), and hands a request to a
-- strategy (strategy.go): the conservative one tries the nodes one by one for some rounds, the race
-- one sends to several at once. An attempt on a node goes through the circuit breaker and the
-- transport, and its outcome, as a classifier sees it, is recorded on the node.
--
-- Files, and the code that they model:
--   Nodepool/Types      provider/nodepool/types.go, and the parameters of the model (Platform):
--                       float64, semaphore.Weighted, rate.Limiter, payloads and foreign errors
--   Nodepool/Options    provider/nodepool/options.go
--   Nodepool/Node       provider/nodepool/node.go: newNode, initThrottler, TryAcquire, Acquire,
--                       Release
--   Nodepool/Node/Health   the rest of node.go: IsAvailable, Stats, RecordSuccess, RecordFailure,
--                       RecordBizError, updateLatency, recalcScore, tryTransitionToHalfOpen,
--                       updateConfig
--   Nodepool/World      the state that a call changes: the heap of nodes, a tick, the requests sent;
--                       Env has what the clock, the context, the transport and the scheduler answer
--   Nodepool/Strategy   provider/nodepool/strategy.go: Conservative and Race
--   Nodepool/Pool       provider/nodepool/pool.go: New, AddNode, RemoveNode, UpdateNodes, NodeStats,
--                       NodeCount, resortNodes
--   Nodepool/Pool/Requests   doOnNode, doWithStatus, Do
--   Nodepool/Pool/Many  DoMulti and DoUntilComplete; Nodepool/Pool/Many/Ticks has that no part of a
--                       request takes time back
--   Nodepool/HttpTransport   provider/nodepool/httpTransport/classifier.go: what an HTTP answer means
--                       for the node that gave it; the pool takes such a function as its classifier
--   Nodepool/Examples   concrete pools at which the theorems are applied
--   Dlock               dlock/memory.go: locks by key; Dlock/Exclusion has the calls of several
--                       callers as a step relation
--   Cache               cache/cache.go and cache/twolevel.go; the two caches below are parameters with
--                       laws (Cache/Coherence)
--   NetHttp             net/http/types.go and the data of net/http/context.go: Request, Response, and
--                       the exchange that the middlewares of one call share; what the client, the
--                       clock and the parsers answer is a parameter (Env)
--   NetHttp/Chain       the control of net/http/context.go and net/http/chain.go: Next, Abort, execute;
--                       NetHttp/Chain/Onion is the chain without its index
--   NetHttp/Middleware  net/http/middleware.go, Compose and ConditionalMiddleware
--   NetHttp/Builder     net/http/builder.go: RequestBuilder and Execute
--   Cmd                 cmd/cmd.go: the scheduler, over gocron as a parameter (Cron); Cmd/Jobs has the
--                       laws of gocron and the jobs that should run
--   Coroutines          common/coroutines/coroutines.go: SafeFunc; Coroutines/Retry is Retry, and
--                       Coroutines/Processor is ConcurrentProcessor as a step relation, and
--                       Coroutines/Crash common/coroutines/crash.go: ReportPendingCrashes
--   Community/TimeRange common/community/time_range.go, over Go's package time as a parameter
--   RequestPool         provider/requestPool/server.go: the data, and what a worker writes to its point
--   RequestPool/Answer  DoRequest, CheckJson and RetryCheckFunc
--   RequestPool/Work    the workers: startWorker, handleRequest, redirectRequest, saveAndNotify
--   RequestPool/Calls   NewPool, UpdatePoints, the sorting of CheckStatus and RequestMulti, and a run of
--                       all goroutines as a list of events; RequestPool/Conserved has where requests are
--   RabbitMq            dao/rabbitMQ/queue.go: the messages and NewQueue; the AMQP client is a parameter
--   RabbitMq/Sending    SendMessages, SendMessagesTx, SendMessagesEvery
--   RabbitMq/Delivery   Ack, Nack, RetryLater, ConsumeMessages after its setup
--   RabbitMq/Backoff    dao/rabbitMQ/connect.go: backoff
--   GormDb              dao/gormDB/query.go: conditions, patterns of LIKE, pages, orders; LIKE of the
--                       database and the rows that it selects are parameters with laws
--   WebSocket           net/ws/client.go: Start, Stop and run
--   Utils/SingleRun     common/utils/singleRun.go: SingleRun, cut where the lock of a key is free
--   Utils/OrderedMap    common/utils/zmap.go: a linked list of pairs and a map from keys to its
--                       elements
--   Utils/SafeChan      common/utils/channel.go: SafeChan, whose Send is cut in two at its select
--   Utils/SafeCloser    common/utils/channel.go: SafeCloser
--   Utils/Slices        common/utils/list.go: SafeSet and EnsureLen
--   Base                tests on numbers, lists, integers and maps that the components share
-- The other files under a component's name hold its proofs.
--
-- A pointer to a node is a number, and the heap maps it to the node; the list and the map of a pool
-- share nodes by holding the same number. A method is one step, since each holds its lock
-- throughout; the clock is read once per step, and every question to the environment takes the next
-- tick, so that the answers can differ from one question to the next. Counters of type int64 and
-- int are numbers without a bound: they only grow by one per request. Durations are integers.
-- The loops need no fuel: the rounds of the conservative strategy are counted down from
-- `round_count`, which is the number of times that the source's loop runs.
-- The attempts of a race run one after the other in an order that the environment chooses, each to
-- its end, so that an interleaving within two attempts is not modelled; whether an attempt loses its
-- result to a cancelled context is the environment's choice.
--
-- A lock of the in-memory provider is a full or empty channel of capacity one. A blocking call of
-- Lock that goes on waiting is no step; whether a context is done, and which ready branch a select
-- takes, are arguments. An element of the linked list is its address, and the pairs stand in order.
--
-- A middleware is a tree of the calls that it makes on its context, since a Go middleware may read
-- and write the context between Next and Abort as it likes. `run` follows it; Next gets fuel, and one
-- unit for each middleware, one for the request and one for the end are enough. The index of the
-- chain is an int8, kept as a byte, with its wrap-around and its signed comparison.
--
-- A call of SingleRun, of ConcurrentProcessor or of a channel is cut into steps where another
-- goroutine may run; the theorems hold for every sequence of steps. A waiter may wake at any time.
-- The goroutines of DoMulti and DoUntilComplete run one after the other. DoUntilComplete asks its
-- context before every round, so that fuel beyond the tick at which the context ends is enough; Retry
-- makes one call for each unit of fuel.
--
-- In the request pool a worker is at rest, or has a request that it took or sent; what it does between
-- two of these points is one step, and so are a pass of redirectRequest and of UpdatePoints. The sends
-- of several calls come in any order. A send to a full channel is no step until there is room. A panic
-- of DoRequest ends its worker, and its request is lost.
-- The calls of onConnect and onDisconnect are counted whether or not a function is set, and the loops
-- that read and ping a connection are the event that it breaks.
-- An attempt of SendMessagesEvery takes one unit of fuel; the marking of messages as persistent, which
-- the slice of the caller shows, is seen in what SendMessages returns.
--
-- Not modelled: the goroutine of the background loop of a pool and its Close, the Meta map of a node,
-- the status values other than the three constants, the texts of error messages, the string and JSON
-- forms of an ordered map, unbuffered channels, when cache entries expire and the flights that concurrent
-- loads share, the redis and etcd locks, LoggingMiddleware and the parsing of HTTP
-- results, ConcurrentProcessorChan, the setup of the crash reports, the loops of CheckStatus, of
-- ConsumeMessagesEvery and of the reconnection to RabbitMQ, and the other packages of the library,
-- among them the WebSocket server, the other access to databases and the exporter. No panic of a
-- node's transport is modelled: the conservative strategy releases without defer, and a panic that a
-- caller recovers from would leave a slot held. A middleware cannot ask whether its context is
-- aborted. The two parts of redirectRequest are one step, so that a point's channel is not closed
-- between the test of needClose and the send to it.
pub mod Base
pub mod NetHttp
pub mod Utils
pub mod Cache
pub mod Cmd
pub mod Community
pub mod Coroutines
pub mod Dlock
pub mod GormDb
pub mod Nodepool
pub mod RabbitMq
pub mod RequestPool
pub mod WebSocket
