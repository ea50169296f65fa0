-- ===== src/Lib.antt =====
-- The C++ programs of the benchmark suite: cpp/*.cpp, the Asio and PhotonLibOS counterparts of the
-- zio benchmarks.
--
-- Each program is one `main`: it reads options from its arguments, starts coroutines that share a
-- few objects, waits for all of them, and prints what they computed. Threads and coroutines are
-- modelled as interleavings: a step of one of them is one access to shared state and the local code
-- up to the next, and a schedule is a list that says who is resumed next.
--
-- Shared: names and lemmas the other modules share. Shared.Words has the wrap of `uint64_t`,
--   Shared.Xor the laws of `^`, Shared.XorTotal the exclusive or over a list.
-- Clib: the parts of the C library that the programs call (strcmp, strncmp, strtoull, atoi, printf
--   of %lu), from the C standard; Clib.Decimal proves that numbers are read as they are printed.
-- Argv: the loop over `argv` that begins each `main`.
-- Channel: asio::experimental::concurrent_channel as a parameter: operations and the behaviour that
--   its documentation promises. Channel.Fifo is a bounded queue that meets it.
-- WorkerPool: cpp/worker_pool_asio.cpp.
--   WorkerPool.Hash is `work`; WorkerPool.Expected the checksum that a run should print;
--   WorkerPool.Buffer the values in the shared queue; WorkerPool.Items the count of one item.
--   WorkerPool.Asio has the coroutines `producer` (producer_step, with after_send and fetch_sub) and
--   `consumer` (consumer_step, with after_receive and fetch_xor), the pool that `main` builds (init,
--   spawn_producers, range_start, range_end) and its runs (step, run). Args has the options of
--   `main`; Measures and Invariant say what every state keeps to; Replacing, Producing, Consuming and
--   Preservation prove it of each step; Ranges is about the split of the items; Safety, Progress and
--   Termination are about single states and steps, Runs about whole runs, Misuse about options that
--   cannot be served. Once records what the consumers hand to `work` (all_handed, which is not in the
--   program) and is about how often.
-- Schedule: runs along a schedule, the invariant and the measure that a terminating program has, and
--   in Schedule.Fair what every fair schedule then does; Schedule.Many runs copies of one program.
-- Photon: `photon::semaphore` and `photon::mutex` as a parameter, from the documentation of
--   PhotonLibOS. Photon.Counting is a number and a flag that meet it.
-- WorkerPool.Photon: cpp/worker_pool_photon.cpp.
--   Slots is the array of `Queue` with its counters. WorkerPool.Photon has the operations inside
--   `Queue::push` (reserve, acquire, put, post) and `Queue::pop` (fetch, acquire, take, give_back), the
--   steps of `producer` (produce), of `consumer` (consume) and of the end of `main` (stop), all in
--   thread_step, the threads that `main` creates (init), and a resumption (step). Weights and
--   Invariant say what every state keeps to; Moves, Queueing, Slotting, Reading, Finishing,
--   Preservation and Spawning are about each step; Roles and Going about who can go on; Args has the options; Ending, Quiet, Progress, Termination and Runs are about the
--   end of a run, Once about what is handed to `work`.
--
-- Sleep: cpp/sleep_asio.cpp and cpp/sleep_photon.cpp, in Sleep.Asio (sleep_task, step, init,
--   exit_code) and Sleep.Photon (thread_step, which is `sleeper` and the end of `main`, step, init).
--   Each has its invariant and steps in Steps, whole runs in Runs and its options in Args.
--
-- PingPong: cpp/queue_ping_pong.cpp and cpp/queue_ping_pong_photon.cpp. PingPong itself has the split
--   of the messages (all_messages, at_least_one, per_pair), PingPong.Split lemmas on it.
--   PingPong.Asio has `task_a` and `task_b` (proceed, with after_first, after_send, after_receive), a
--   pair of them (new_pair, pair_step) and the pairs that `main` spawns (init, step, by
--   Schedule.Many). Phases are the states of a pair; Moves and Progress what its tasks do in each of
--   them; Runs and Turns are about whole runs; Args has the options.
--   PingPong.Photon has `Slot` with its two semaphores, `send` and `recv` cut at each access to a
--   semaphore or to the value (Task, after_empty, after_full), the two coroutines of a pair (proceed,
--   pair_step), and the program with its semaphore `done` (State, main_step, step, init). Phases, Moves,
--   Steps and Progress are about a pair, Program, Ending and Runs about all of them and `main`.
--   PingPong.Options compares the options of the two.
-- WorkerPool.Agreement compares the checksums of the two pools.
--
-- TcpServer.Asio: cpp/tcp_server_asio.cpp. `handler` as what a connection does when an operation of its
--   socket comes back (resume, with after_read and after_write), over any sequence of outcomes; Echo and
--   OneWay are about what it has sent and received then. Args is the options of `main`, Requests about
--   sequences of them. An `atoi` out of range is undefined. Accepting is `server`, the loop over
--   `accept`, and its connections, over any sequence of events, in Runs and for an echo in Echoing;
--   Starting has the acceptor and the threads of `main` (start_server, runners).
-- TcpServer.Photon: cpp/tcp_server_photon.cpp. `handler` as what it does when `recv` or `write` returns
--   (proceed, with after_recv and behind_write; serve); Echo is about what it has sent then. Args has
--   the options and what ends `main` before its loop (prepare), Requests is about that, and Accepting
--   is the loop of `main` (main_step, main_loop).
--   TcpServer.Connections is shared: the events, and how what comes back reaches its connection, which
--   is the runtime's part. TcpServer.Options compares the options of the two.
--
-- Bounds: a run needs no fuel, it follows a schedule. The fuel of threads_from is the number of
-- threads, and that of print_digits 20, since a number of 64 bits has no more digits. A schedule that resumes every coroutine
-- `step_bound` times (`step_limit` for the Photon pool) is enough to end it; for sleep_asio that is
-- twice the number of tasks, and once more for sleep_photon. For the ping-pong programs it is pairs
-- * (2 * per_pair + 3) and pairs * (6 * per_pair + 19) + 1.
--
-- Not modelled: the clock and the output of the durations; how a thread pool chooses what to resume
-- (any choice is a schedule here); memory ordering weaker than sequential consistency, since each
-- atomic is one location that is only read after all coroutines have ended. The creation of the
-- coroutines is not interleaved with them: one that is not yet spawned is one not yet resumed.
-- `sock.set_option` of tcp_server_asio.cpp, whose exception closes the connection before its first
-- operation, as a first operation does that fails with no byte transferred.
pub mod Shared
pub mod Clib
pub mod Argv
pub mod Schedule
pub mod Channel
pub mod Photon
pub mod WorkerPool
pub mod Sleep
pub mod TcpServer
pub mod PingPong
