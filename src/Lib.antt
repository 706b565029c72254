-- ===== src/Lib.antt =====
-- A model of DeqinActor, an actor framework in Go, and what is proved of it.
--
-- An actor (`actor/base_actor.go`) has a mailbox (`mailbox/mailbox.go`) with an urgent and a normal
-- lane. Each lane is a queue of linked segments (`mailbox/segmented.go`), and each segment a ring of
-- cells (`mailbox/ring.go`). The actor's loop pops envelopes from the mailbox and sleeps on the
-- mailbox's notification when there are none. The system (`actor/system.go`) finds actors in a
-- registry (`actor/registry.go`) or on other nodes (`actor/remote.go`), slows senders with a token bucket (`actor/ratelimit.go`) and counts
-- in its metrics (`actor/metrics.go`). A request (`actor/ask.go`) passes the circuit breaker of its
-- target (`actor/breaker.go`) and waits on a future (`actor/future.go`). A supervisor
-- (`actor/supervisor.go`) restarts children that fail. An actor may keep its messages in a log
-- (`persistence/wal.go`).
--
-- Which file models which part, and how:
--   Base         shared names; `Base.Int` has `int64` with its wrap-around, `Base.Time` Go's times and
--                durations, `Base.Str` strings and maps indexed by them, `Base.Bits` and `Base.Mod`
--                the arithmetic of masks and of wrapping counters.
--   Ring         `mailbox/ring.go`. `round_up` and `init_cells` are the loops of `NewRing`, `enqueue`
--                and `dequeue` the methods; head, tail and the cells' numbers are `uint64` and wrap.
--   Segmented    `mailbox/segmented.go`. Segments live at addresses of a store. `enqueue_round` is a
--                round of the loop of `Enqueue`, `on_dequeue` the body of `Dequeue`.
--   Mailbox      `mailbox/mailbox.go`. `push` and `pop` are the methods; the channels `closed` and
--                `notify` are Booleans, `size` an `int64`. The argument `sleeps` of `push` is what
--                other goroutines do while a blocking `Push` sleeps.
--   BaseActor    the loop `run` of `actor/base_actor.go` on its mailbox, with other goroutines between
--                its calls.
--   Breaker      `actor/breaker.go`, with the current time as an argument. `Breaker.Atomic` has the
--                single atomic steps of `Allow`, and `Breaker.Callers` any goroutines that call it at once.
--   RateLimit    `actor/ratelimit.go`, with the current time as an argument.
--   Future       `actor/future.go`. A call returns the callbacks that it runs, with their values;
--                `Future.All` has `Then` and `All`.
--   Supervisor   `actor/supervisor.go`. `on_failure` lists the children that are restarted, and
--                `restart_child` restarts one. What a factory makes is an argument.
--                `Supervisor.Overlap` has restarts that overlap.
--   Ask          `actor/ask.go`, with the wait tokens of `actor/system.go`: `ask_begin` is `Ask` up to
--                its wait, `ask_end` from there on.
--   Pending      the table of pending requests of `actor/system.go`.
--   Registry     `actor/registry.go`. The two maps are functions; `none` is the nil actor.
--   Wal          `persistence/wal.go`. The file is the list of its bytes.
--   Types        the data of `actor/types.go`, `actor/envelope.go`, `actor/errors.go` and
--                `actor/context.go`. `V` stands for the users' own messages.
--   Ids          `actor/id.go`.
--   System       the state of `actor/system.go` with the actors of `actor/base_actor.go` at addresses
--                of a store. `System.Deliver` has `Tell`, `sendRequest`, `sendResponse`, `deliverToID`
--                and the actor's `tell`; `System.Actor` has `NewBaseActor`, `Start` and `Stop`;
--                `System.Handle` has `handle`, `Receive`, `Send` and the context's `Respond`;
--                `System.Async` has `SendAsync` and `System.Sync` has `Ask`;
--                `System.Monitor` has `actor/metrics.go` as far as it reads the system; `System.Remote` and `System.Server` have the two
--                sides of `actor/remote.go`. `Host` is what the operating system and the network
--                do, `Serializer` what a serializer makes of a message, and `Users` what the users'
--                functions do in a call.
--   Clock        `testkit/clock.go`.
--   Metrics      the counters and the histogram of `actor/metrics.go`.
-- In each of them the module of the part's name has its state and operations, the modules below it
-- have the proofs, and `Tests` has runs at concrete inputs.
--
-- Calls run one at a time, each as a whole, unless a file says otherwise: locks make it so for the
-- registry, the log and the supervisor's fields. For the ring, the segmented queue and the future this
-- leaves out the interleavings that their atomic operations allow.
--
-- Loops with no bound of their own take fuel. `Segmented.enqueue` gets two rounds, and
-- `Segmented.dequeue` a call for each segment that there may be; `Wal.replay` gets one round more
-- than there are bytes, and `RateLimit.wait` as many tries as it is told; out of fuel they give `none`,
-- and the results on them are for this fuel. `Ring.double_until` gets 64 doublings, since the 64th
-- makes a `uint64` zero.
--
-- A send by the system runs with no other goroutine in between. Where it waits, for the limiter or for
-- room in a mailbox, it is followed up to its first wait, and its outcome says so; `Stop` is cut where
-- it waits for the loop of the actor.
--
-- Not modelled: the glue for gRPC and encoding/gob (`actor/remote.go`, `actor/codec.go`), the
-- HTTP endpoint of the metrics and the text that it prints, and the other helpers for tests (`testkit/probe.go`, `testkit/chaos.go`). The persistence
-- hook that a user gives a mailbox is seen only by the bytes that it is given.
pub mod Base
pub mod Breaker
pub mod RateLimit
pub mod Ring
pub mod Segmented
pub mod Mailbox
pub mod Wal
pub mod Registry
pub mod Future
pub mod Supervisor
pub mod Metrics
pub mod BaseActor
pub mod Ask
pub mod Pending
pub mod Clock
pub mod Types
pub mod Ids
pub mod System
