-- ===== src/Lib.antt =====
-- gev: a TCP network library with one event loop per thread, of which this library models the server,
-- its loops and pollers, its connections, its protocols and its options.
--
-- The parts and how they interact. A server (server.go) has a listener (listener.go), whose loop accepts
-- descriptors, and worker loops (eventloop/eventloop.go), one of which a strategy (load_balance.go) chooses
-- for each new connection (connection.go). A loop waits in its poller (poller/epoll.go on Linux,
-- poller/kqueue.go on BSD and macOS), which calls it for each event; the loop hands the event to the
-- socket of the descriptor, or, for a wake-up, runs the functions that other goroutines queued. A
-- connection reads, lets its protocol (protocol.go, plugins/) take messages from its buffer, calls the
-- user's handler for each, and writes the answers, keeping in a ring what the kernel does not take.
--
-- The files:
--   Base: names of the libraries that all others use, Boolean tests, lists over the native numbers.
--   Deps: what the program takes from outside the repository, as one record: the system calls of
--     golang.org/x/sys/unix, the clock, the timing wheel and the ring buffers. Deps/Laws says what their
--     documentation promises; Deps/Simple is an instance, with proofs of those promises.
--   Poller, Poller/Epoll, Poller/Kqueue: poller/poller.go, poller/epoll.go, poller/kqueue.go. `Poll` runs over
--     the list of what the kernel's wait gives in turn.
--   EventLoop: eventloop/eventloop.go, one function per method. EventLoop/Wakeup is `QueueInLoop` by many
--     goroutines against the loop, as a relation of atomic steps.
--   Connection: connection.go. Close has `Send`, `Close` and `handleClose`, Send has `sendInLoop`, Read has
--     `handleRead` and `handlerProtocol`, Event has `handleWrite` and `HandleEvent`, Idle has `NewConnection`
--     and the timer. Life is a connection over sequences of all of these. Once, Closed, Stream, Termination,
--     Frame, Flow, Watch, WatchRead, WatchWrite, Watched, Closing, Lengths, Deadline and Outcome have the
--     proofs; Read/Reference compares `handleRead` with a simpler one.
--   Reactor: one loop with its connections, where the queued functions are run; with its proofs Lifecycle
--     and Count. Reactor/Reach interleaves all that can happen to it, with what holds then in Owned,
--     Sound and Reach/Safe; Early is a timer that comes before the registration;
--     Closing, Stopped and Drained are the end of a loop.
--   Server, with Server/Setup for `NewServer`, and its proofs Creation, Accept and Setup/Complete:
--     server.go. Server/System is a server with all its loops and connections, over every interleaving, and
--     System/Sound and System/Invariant what holds then.
--   Listener, with its proof Creation: listener.go.
--   Windows, with Rounds, Service, Closers for the calls of `Close` by several goroutines, and its proofs
--     Stream, Fuel and Closers/Once: server_std.go. Windows/Goroutines interleaves `writeLoop` with `Send` and
--     `Close`, with its proofs Order, Sent and Ends; Windows/Service/Accepting interleaves the accept loops with
--     `Stop`, with its proofs Sound, Stopped and Missed.
--   LoadBalance, Options, Context, Protocol: load_balance.go; options.go with connection_options.go and
--     everyscheduler.go; context.go; protocol.go.
--   Plugins/Protobuf, with its proof Codec, and Plugins/Websocket, with its proofs Frames and Marked:
--     plugins/protobuf and plugins/websocket.
--   Samples/Framing, with its proofs Codec and Messages: example/protocol/protocol.go.
--   Samples/Push, with its proof Registry: example/pushmessage/main.go and example/bufferlength/main.go.
--   Samples/Echo, with its proofs Message, Still, Balance, Handling and Stream: example/echo/main.go.
--   Samples/Chat, with its proofs Rounds and Answers: example/websocket/main.go.
--   Samples/Limit: example/maxconnection/main.go.
--   Examples: concrete connections and loops on which the theorems are applied.
--
-- How state is kept. A method is a function on the record of its object with the state `Os` of the kernel,
-- clock and timing wheel, and gives the new ones; an error is an option beside it, and a result `none` of
-- a whole step is a panic. A callback of the user is a function from the user's state to a new one and to
-- the calls that it makes on its connection, which are performed in order. A connection is named by a
-- number, as the source names it by a pointer. A lock is the atomicity of the step that it guards.
-- `needWake`, the queues and the eventfd are interleaved in EventLoop/Wakeup only, where a write to the
-- eventfd does not fail.
--
-- Bounds. The loop of `handlerProtocol` runs on fuel, one more than the length of its buffer: a protocol takes
-- bytes with each message (the field `progress` of `Protocol`), so the fuel is never used up, which
-- Connection/Read/Termination shows against the loop without fuel, and Windows/Fuel for the same loop on
-- Windows. Loops over batches, tasks and options are structural. `uint32` and `uint16` of
-- plugins/protobuf keep their wrap-around; counters of connections are integers, which do not come near
-- the ends of `int64`. `NewTimingWheel` and the `make` of the slice of loops, which may panic, are parameters
-- of `NewServer`; an option is a function, never nil.
--
-- Not modelled: plugins/websocket/ws, a copy of another project's library, which is a parameter of the
-- websocket plugin; log, whose calls change nothing modelled; the examples that only echo or log and the
-- benchmarks; that the packet buffer, the bytes of `PeekAll` and the answers share memory;
-- the reuse of rings by their pool; the start of goroutines and the waits for their end. Of the goroutines of
-- a Windows connection `writeLoop` is interleaved with calls of `Send` and `Close`, and those of `Close` with one
-- another; `readLoop` runs in whole rounds. In Connection and Reactor a call of the protocol or of a callback
-- returns: a panic in one of them ends the program, and is modelled where the protocol itself is.
pub mod Base
pub mod Deps
pub mod Poller
pub mod EventLoop
pub mod Context
pub mod Connection
pub mod Protocol
pub mod Plugins
pub mod Samples
pub mod LoadBalance
pub mod Options
pub mod Reactor
pub mod Listener
pub mod Server
pub mod Windows
mod Examples
