-- ===== src/Lib.antt =====
-- A model of the programs of this repository, a course whose modules m00 to m14 build parts of one
-- customer platform, each with a worked solution (the `solution-*` folders), and proofs about them.
--
-- Parts and files
--   Stats         m00-getting-started/03-stats/stats: Summarize.
--   Errorx        m01-interfaces-and-errors/solution-errorx: error codes that survive wrapping.
--   Customers     m01-interfaces-and-errors/solution-customer: an upserting repository, Validate.
--   Genx          m02-generics-and-idioms/solution-genx: Map, Filter, Keys, Values, Set, Paginate.
--   Store         m02-generics-and-idioms/solution-store: a map behind a mutex.
--   ServerConfig  m02-generics-and-idioms/solution-config: functional options.
--   Dispatcher    m03-concurrency/solution-dispatcher: sends with retries, backoff, dead letters;
--                 Running is its Run, as steps of the workers in any order, Demo solution-cmd/demo.
--   Pipeline      m03-concurrency/solution-pipeline: Run and Merge, as steps of their goroutines in
--                 any order.
--   RestApi       m04-rest-api: Customer and Repo are solution-customer; Errors, Wire (json.go and the
--                 recorder), Handler and Middleware are solution-httpapi; Api is about requests to
--                 `Routes` as a whole.
--   ProfileRpc    m05-grpc: Repo, Server and Client are solution-profile, Interceptor is
--                 solution-interceptor with the chain of solution-cmd/server, Command its main.
--   PgCustomer    m06-postgresql: the repository over PostgreSQL (solution-customer); Pool is
--                 solution-db.
--   MongoProfile  m07-mongodb: the profile repository over MongoDB (solution-profile); Connecting is
--                 solution-mongodb.
--   Bus           m08-nats-core/solution-bus, with two loops of solution-cmd/demo.
--   Stream        m09-jetstream/solution-stream and solution-events: the deduplicating consumer;
--                 Connecting is its set-up.
--   Pulse         m10-project-structure/pulse/internal: Customer, Handler and Routes are
--                 customer/customer.go, Config is platform/config.
--   Serving       m10-project-structure/pulse/internal/platform/httpx with cmd/customer-api, and
--                 m04-rest-api/solution-cmd/api: how a server ends.
--   Welcome       m11-testing/solution-notify: Welcome and SendWithRetry.
--   VersionService  m12-cicd/main.go.
--   Obs           m13-observability/solution-obs: levels, the logger in a context, Instrument; Setup
--                 is the metrics and the tracer.
--   Capstone      m14-capstone: Domain, Events, Notify and Api are the packages of those names, Flow
--                 goes from a request to the message sent, as cmd/pulse wires them, Welcomes from
--                 a list of requests to what any deliveries make of the stream.
-- The REST handlers call the service, which calls the repository; their errors go through `codeOf` to
-- a status and a body. The consumer of m09 and the dispatcher of m03 are the sending side. The server
-- of m05 takes any repository that keeps the contract `IsRepo`, which the one in memory does. In m14 a
-- handler stores and publishes, and a consumer like that of m09 sends.
-- Common has the native numbers, the Go `int` (`ℤ` with wrap-around to 64 bits written out), lists
-- and Go maps; GoErrors, GoRpc, GoHttp, GoStrings and Decimal are what the code uses of Go's errors,
-- gRPC's codes, net/http, strings and hex, strconv and fmt; GoMux is its ServeMux, Handles the
-- connections that are open. A file's folder has its lemmas and theorems, its Tests the witnesses.
--
-- How Go is rendered
--   A string is its list of bytes. A map is an association list with distinct keys; the order in
--   which `range` visits it is a parameter, some permutation of the entries. An error is a tree of
--   wrapped and joined errors (`Err`), nil is `none`. A panic is `none` or `panicked`. A receiver
--   that a method changes is passed and returned. A method that holds a mutex from its first line to
--   its return is one step, so goroutines are interleavings of whole calls. Goroutines that meet at
--   channels are a step relation on what they share, a phase for each of them; a theorem is about
--   every run. Time is a number. A Go `int` or duration is an integer with its operations wrapped to
--   64 bits, an atomic counter is kept modulo 2^64.
--
-- Bounds and fuel
--   Loops recur on the slice they range over. `attempts` and `retry` recur on the number of attempts
--   left, which is the source's own bound. `deliver_from` and `redeliver` take fuel for the deliveries
--   of one message: as many as the limit are enough. `itoa_from` recurs on the bytes left in its
--   buffer, `decimal_from` on fuel above the number it prints. The repositories' sequence numbers do
--   not wrap: they count customers held in memory. The runs of the step relations have a number of
--   steps, with a bound from the size of the input.
--
-- Outside the model
--   Parameters: the choice of a route in m04, the JSON codec, the RFC 3339 text of a time, the verb
--   %q, the bearer token, the answers of senders and of JetStream, the statements and transactions
--   of PostgreSQL, the calls of MongoDB, of NATS and of the drivers, the trace id of a span, the
--   gRPC call under a client's deadline, random bytes, the clock, and the points at which a context
--   ends.
--   Left out: log details other than the method, the path, the status, the code and the request id, the
--   stack trace, durations in logs, the bytes of JSON answers (bodies are kept as values), the exercise
--   stubs, the demo commands but for the loops named above, the generated protobuf code, and the error
--   codes of m10, which are word for word those of m01.
pub mod Common
pub mod GoRpc
pub mod GoErrors
pub mod GoHttp
pub mod Decimal
pub mod GoStrings
pub mod Errorx
pub mod Genx
pub mod Store
pub mod Customers
pub mod ServerConfig
pub mod Stats
pub mod Dispatcher
pub mod RestApi
pub mod ProfileRpc
pub mod PgCustomer
pub mod Stream
pub mod Pulse
pub mod Welcome
pub mod Capstone
pub mod MongoProfile
pub mod Obs
pub mod Pipeline
pub mod Bus
pub mod Handles
pub mod GoMux
pub mod Serving
pub mod VersionService
