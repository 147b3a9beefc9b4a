-- ===== src/Lib.antt =====
-- Verification of the toll services: the load generator sends OBU events to the receiver over
-- WebSockets, the receiver publishes them to Kafka, the distance calculator consumes them and sends
-- distances to the aggregator over HTTP or gRPC, and the aggregator keeps totals, from which it and
-- the gateway in front of it answer invoices.
--
-- Common and its children hold what the parts share: numbers, Booleans, maps, texts with the
-- decimal numerals of `strconv`, and the functions of `strings` that are used, on ASCII texts. A text
-- is a list of bytes. A Go map is an association list. An `int` is an integer of the library's ℤ over
-- the native ℕ; 64-bit words are taken `% 2 ^ 64`, and the conversion to `int32` is `int32`.
--
-- Which file is about which part:
--   Types: types/types.go, and the request of types/ptypes.proto
--   Aggregator: aggregator/service.go (`AggregateDistance` is `aggregate_distance`, and so on)
--   Aggregator/Store: aggregator/store.go; Ledger, Replay and Fingerprint below it prove
--     what a store stands for, what redeliveries do, and what the reconciliation depends on
--   Aggregator/Middleware: aggregator/middleware.go; Aggregator/Accounting: its totals
--   Aggregator/Http and Aggregator/Grpc: aggregator/http.go and aggregator/grpc.go, with the state
--     `Server` (the service and the transports' counters); Aggregator/Transports compares them
--   Aggregator/Startup: aggregator/main.go, and the gauges of open connections
--   Aggregator/Refinement: the service over the store against the ledger
--   Client, Client/HttpClient, Client/GrpcClient: aggregator/client; Client/Agreement: both clients
--     in front of the server
--   Calculator: dist-calc/service.go; History and Replay below it; Calculator/Startup:
--     dist-calc/main.go and the constructors; Calculator/Consumer: dist-calc/consumer.go, with Delivery
--     and Rounds below it on what a committed offset means, Sources on what it asks for,
--     Recorded and Reconciled on the consumer in front of the aggregator's store, Advance and
--     Blocked on what the loop reaches, Settling and Pipeline on its end in front of the
--     aggregator, and Truncation on the 32 bits of the request's OBU ID
--   Gateway: gateway/main.go; Gateway/EndToEnd: a request through gateway, client and aggregator
--   Receiver, Receiver/Loop: data_receiver/main.go; Receiver/Producer: data_receiver/producer.go and
--     middleware.go; Receiver/Startup: the constructors of both; Receiver/Origins and
--     Receiver/Publishing: their properties; Receiver/EndToEnd: the way of an event from a connection
--     through Kafka and the calculator into the aggregator's store
--   Obu, Obu/Settings, Obu/Ramp: obu/main.go, its settings, events, statistics and ramp;
--     Obu/Assignment and Obu/Maximum: the run of mode max, whose workers' actions are interleaved in
--     any order; Obu/Conservation: what its statistics say at every moment; Obu/Reconciliation: the
--     run against the aggregator's reconciliation; Obu/Fixed: the run of mode fixed, with its ticks,
--     phases, queues and writers, interleaved in any order, and Conservation, Reconciliation and Drain
--     below it; Obu/Session: `main`, with Printed, Gauge and Arrived below it, where Arrived sets the
--     printed summary against the aggregator behind Kafka and the calculator; Obu/Accepted: the events
--     in front of the receiver
--   Benchmark: benchmark/main.go, its configuration; Percentile, Histogram, Quantile, Report: its
--     figures; Polling and Waiting: the loops that wait for the aggregator; Load: the sender; Pipeline
--     and Transport: the two benchmarks; Sends: what the transports' benchmark sends
--   Process: the main functions of all processes
--   Metrics: the metrics that the packages declare; Metrics/Labels: the labels that are counted under
--   Examples: concrete parameters, and the theorems applied to them
--
-- Each operation takes its component's state and returns the new one. A method that holds a lock from
-- its first statement to its last is one step, so concurrent calls are some sequence of calls.
--
-- Parameters, since their code is not in the repository: the floating-point numbers (`Float64`, with
-- the laws of `IsFloat`; Float/Grid is an instance that runs), `encoding/json` (`Codec`, with
-- `IsCodec`, which reads texts back that are valid UTF-8), the Kafka clients (`Broker` with `IsPartition` and `IsServing`, `KafkaClient` with
-- `IsKeeping`, `KafkaLibrary`), the network between client and server (`IsConnected`,
-- `IsDelivering`), the WebSocket package (`Dialer`, `Sockets`), the clock (`Clock`, with `IsClock`),
-- the metrics page, the host of a parsed URL, `time.ParseDuration`, `strconv.ParseFloat`, the verb
-- `%.3f`, and the environment and the command line.
--
-- Bounds: the numerals of a number n are made with fuel n + 1, of which they use at most one for each
-- digit. The consumer's loop does not end by itself; `start n` is its first n rounds, and its theorems
-- hold for every n. The loops that wait for the aggregator run on fuel, and a round of them takes at
-- least 50 or 100 ms, so that the rounds that fit the timeout, and one more, are enough. The loop
-- that assigns OBUs to a worker has the number of OBUs as its fuel, of which each round but the last
-- uses one while the sums stay below 2^63; `make` panics if the capacity it is asked for wraps around to
-- a negative number, and the memory is not bounded otherwise. Sequence numbers are 64-bit words; the theorems on a load run take fewer than 2^64 actions.
--
-- Not modelled: what flags, listeners, signals and the metrics servers do, of which the main functions
-- use the outcomes; the values that histograms observe, and log lines, which are only written;
-- deadlines of sockets, whose passing is an error of a read or a write; the code generated from
-- types/ptypes.proto.
pub mod Common
pub mod Benchmark
pub mod Float
pub mod Types
pub mod Http
pub mod Aggregator
pub mod Client
pub mod Calculator
pub mod Gateway
pub mod Process
pub mod Metrics
pub mod Receiver
pub mod Obu
pub mod Examples
