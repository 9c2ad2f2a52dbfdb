-- ===== src/Lib.antt =====
-- Verification of the Market Data Dissemination Simulator: a generator makes quotes and trades and
-- pushes them into a single-producer single-consumer queue; a disseminator pops them, stamps them and
-- sends them over UDP or ZeroMQ; a feed handler receives them, filters by symbol and calls the client,
-- whose monitor writes the latencies to CSV files.
--
-- The files, by the part of the program they are about:
--   Types         src/utils/types.h: Quote, Trade, MarketDataMsg, and their bytes as `memcpy` sees them
--   Queue         src/utils/CustomSpscQueue.h: the constructor, push, pop, empty, the destructor;
--                 Queue/Concurrent has push and pop of two threads as interleaved steps
--   Waitable      src/utils/WaitableSpscQueue.h: push, pop and the stop callback as interleaved steps, over
--                 the list of the queued items; Waitable/Stored over any storage; Waitable/Weak with the
--                 producer's stores visible late
--   Spin          src/utils/SpinSpscQueue.h over any storage; Queue/Storage is the interface of
--                 src/utils/QueueConcepts.h, which CustomSpscQueue fills
--   Symbols       read_symbols_file of src/generator/RandomWalkGenerator.h, the `strncpy` of a symbol
--                 into a message, and pack_symbol of src/feedhandler/UdpFeedHandler.h
--   Generator     src/generator/BaseGenerator.h (set_rate, start, stop, generation_loop) and
--                 src/generator/RandomWalkGenerator.h (configure and the making of messages)
--   Disseminator  run_loop of src/disseminator/IDisseminator.h, send_impl of UdpDisseminator.h and of
--                 ZmqDisseminator.h beside it
--   FeedHandler   src/feedhandler/IFeedHandler.h and src/feedhandler/UdpFeedHandler.h: the requests, the
--                 command queue (a CustomSpscQueue of 128 places), the receive loop, the delivery
--   UdpPath       a message from the disseminator's loop to the feed handler's, over UDP
--   ZmqFeedHandler  src/feedhandler/ZmqFeedHandler.h, and a message over ZeroMQ
--   Monitor       src/monitor/LatencyMonitor.h, and the callbacks of src/main.cpp
--   Sockets       the constructors and destructors of src/disseminator/UdpDisseminator.h and
--                 src/feedhandler/UdpFeedHandler.h, over the socket calls, which are a parameter;
--                 Sockets/Zmq those of src/disseminator/ZmqDisseminator.h and
--                 src/feedhandler/ZmqFeedHandler.h, over cppzmq, which is one too
--   Benchmark     run_benchmark_pipeline of src/main.cpp. Benchmark and Benchmark/Subscriptions: its
--                 subscriptions; Benchmark/Delivery, Benchmark/Queued, Benchmark/Taken and
--                 Benchmark/QueuedZmq: the way of the messages from the generator's loop through the
--                 queue and the network to the CSV files; Benchmark/Threads and Benchmark/Run: its
--                 statements with the start and stop of the three threads
--                 (src/disseminator/IDisseminator.h, src/feedhandler/IFeedHandler.h,
--                 src/generator/BaseGenerator.h), exceptions and destructors; Benchmark/Phases to
--                 Benchmark/Pipeline: what holds of a whole run; Benchmark/Udp, Benchmark/Destruct and
--                 Benchmark/Whole: the UDP branches of dispatch_types around it, with the sockets;
--                 Benchmark/Zmq, Benchmark/ZmqClosed and Benchmark/WholeZmq: the ZeroMQ branches;
--                 Benchmark/Refused and Benchmark/RefusedZmq: the branches where a constructor throws;
--                 Benchmark/Main and Benchmark/MainRefused: main around these
--   Config        src/utils/config.h, and main, dispatch_size and dispatch_types of src/main.cpp
--   Base          what these share: names of the standard libraries, lists, machine words, bytes,
--                 tables of open handles
--
-- Numbers are natural numbers; `u64` and `sub64` write the wrap of `std::size_t` and `uint64_t` out. A
-- byte is a number, text and memory are lists of bytes, and a double is the number that its 8 bytes
-- spell. State is a record that an operation takes and returns; threads are step relations, with
-- reachability as an inductive type. An undefined read of C++ is a result of its own or `none`.
--
-- Fuel: `drain` takes one call of `pop` more than the 128 commands that fit the queue, which is enough from
-- where no request comes in any more; before that, `drain_beside` goes over the list of the requests made
-- before each pop. `destroy_loop` takes one round more than the distance of the counters; decimal numbers
-- have at most 20 digits. The loops of the two threads are modelled over the list of what their rounds meet, which
-- may end before the loop does.
--
-- In Benchmark/Threads, a thread runs or does not. Whether it can be made, whether its loop returns once
-- it is asked to stop, and the calls that the feed handler makes beside each statement are arguments. What
-- the loops do is in Generator, Disseminator and FeedHandler, and Waitable shows how a stop can be missed.
-- `dangling` is a callback on a monitor that was destroyed.
--
-- ZeroMQ is seen from two sides: in Sockets/Zmq and Benchmark/Zmq a socket is a handle with its options,
-- which can be refused; in ZmqFeedHandler, Benchmark/Taken and Benchmark/QueuedZmq it is what decides which
-- topics are taken.
--
-- Not modelled: what the system's socket calls do beyond their documentation (the arguments INADDR_ANY and
-- the families are left out), and ZeroMQ beyond its documented options, topics and messages, which are
-- parameters; the file system, logging, cxxopts, boost's queue, and the allocation of memory. The
-- arithmetic of doubles and the random engine are parameters. Of the memory model, Queue/Concurrent has
-- acquire loads that return older values, and Waitable/Weak the producer's stores become visible late; the
-- rest of Waitable takes every access to be sequentially consistent, which the source does not ask for
-- everywhere. In the receive loop of UdpFeedHandler, a push and a pop of the command queue count as one step
-- each.
-- src/generator/MarketDataGenerator.h and src/generator/MarketDataGenerator.cpp are commented out.
pub mod Base
pub mod Types
pub mod Queue
pub mod Waitable
pub mod Spin
pub mod Symbols
pub mod Generator
pub mod Disseminator
pub mod FeedHandler
pub mod UdpPath
pub mod Monitor
pub mod Config
pub mod ZmqFeedHandler
pub mod Sockets
pub mod Benchmark
