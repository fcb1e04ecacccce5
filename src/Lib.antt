-- ===== src/Lib.antt =====
-- shmem-util: an allocator, a mutex, a condition variable and a channel for memory that several
-- processes share.
--
-- A `ShmemAlloc` manages a mapped buffer in chunks of 8 bytes: a sorted vector of free runs, behind
-- a process-shared mutex. A `Channel` keeps a queue in memory of that allocator, behind another such
-- mutex, with two condition variables, the counts of senders and receivers, and a flag that it is
-- being dropped; a reference counter per process decides who destroys it. The mutex and the
-- condition variable are made of pthread calls, and their timeouts of `UnixClock` values.
--
-- Which file models what:
--   Time            src/time.rs: `UnixClock` with `add`, `sub`, `from`, `cmp`; its readings and the test
--                   `check` (Time/Test)
--   PageSize        src/pagesize.rs: `get_pagesize` with its cell
--   ShmemSafe       src/shmem_safe.rs: which types the trait's impls accept
--   Memmap          src/memmap.rs: `MemmapAlloc`, on the answer of `mmap`, and on the mappings of
--                   a kernel whose `mmap` and `munmap` are parameters
--   Mutex           src/mutex.rs: `Mutex`, on the error numbers of the pthread calls, and its guard
--                   in processes whose steps are interleaved (Mutex/Critical), and the tests of the
--                   module (Mutex/Checks)
--   Condvar         src/condvar.rs: `Condvar`; a wait reads the trace of its wake-ups; the test
--                   `check_fork`, two processes step by step (Condvar/Forked), the test
--                   `check_spawn`, two threads (Condvar/Spawned), and the test
--                   `check_wait_timeout` (Condvar/Timeout)
--   ProcessRc       src/process_rc.rs: `PerProcessReferences`, each method one step, or one atomic
--                   operation at a time in many threads (ProcessRc/Atomics)
--   Allocator       src/allocator.rs (Allocator/Ops), src/allocator/free_chunk.rs
--                   (Allocator/FreeChunk), src/allocator/chunks.rs (Allocator/Chunks) and
--                   src/allocator/chunks/sorted_vec.rs (Allocator/Chunks/SortedVec); tests of these
--                   are in Allocator/FreeChunk/Quick, Allocator/Chunks/FindFree,
--                   Allocator/Chunks/Random and Allocator/Chunks/SortedVec/Sorting
--   Autoclean       src/autoclean.rs: `Scoped` over any allocator, and over `ShmemAlloc`
--   Channel         src/channel.rs: the operations of `Inner` (Channel/Inner), the calls with a
--                   timeout (Channel/Endpoints), `Channel::new` and the handles with the counts and
--                   the flag (Channel/Handles), in one process (Channel/Lifetime) and in several
--                   (Channel/Processes), histories of calls against an abstract queue
--                   (Channel/Calls, Channel/Fifo), and the waits of a receiver or a sender beside
--                   the drops of the others, step by step (Channel/Wakeups); a channel in a program
--                   of two processes (Channel/Line), and the test `check` (Channel/Replying)
--   Channel/Simple  examples/simple.rs
--   Channel/PingPong  benches/queue.rs: the server that sends back what it receives, with its client,
--                   and `bench` for one request (Channel/PingPong/Bench)
--   External        the vector and the queue of `alloc_collections`, and the binary searches of
--                   `superslice`: records of operations with their documented behaviour, which the
--                   models take as parameters; External/Instances has values of them
--   Prelude         shared helpers: runs that end or panic (Prelude/Runs), `usize` and `i64` with
--                   their wrap-around (Prelude/Usize, Prelude/Int), lists and tests
--   Threads         two threads or processes as lists of statements, with a search through all their
--                   schedules (Threads/Explore) and simulation of one program by another
--                   (Threads/Simulate): shared by the models of tests and examples
--   Tests           the theorems at concrete inputs
--
-- State and operations. A `FreeSpace` is its beginning and its count, in chunks. `Chunks` is its one
-- field, the sorted vector. A method that changes its object takes and returns it. `assert!`, `expect`
-- and a failing pthread call are `panic`, a value of `Exec`. A call under the lock is one step; the
-- lock's error number is an argument, or part of the request. An operation of the channel is a
-- function of its `Sight`: each load of an atomic, each try of the lock, each look inside a wait and
-- the error numbers of its signals, so that every interleaving with other processes is some choice of
-- them. Integers wrap around as in the release build, and `debug_assert!` is no part of it.
--
-- What the allocator promises is stated by elementary chunks: `cover u xs` counts the spaces of `xs`
-- that hold the chunk `u`. `Inv` is the invariant of the list of free runs, and `Owned` says that each
-- chunk is free or part of one live block.
--
-- Fuel. The merge loop of `insert_chunk_and_merge` has the number of free runs and one as its fuel;
-- each round takes one run away, so that the fuel is enough. A wait without an end and a lock that is
-- tried forever are runs that `hang`, on traces that end too early.
--
-- Interleavings. Channel/Calls takes the calls in the order in which they have the lock, since only
-- then they touch the queue. Channel/Processes takes a use of a handle as one step, since its effects
-- on the counts are single atomic operations, and a destruction too; Channel/Processes/Moved adds a
-- sender that is sent to another process. A step on a channel that is destroyed is a failure there.
-- Channel/Wakeups takes apart what one that waits and one that is dropped do: the test, the sleep, the
-- decrement and the broadcast are steps of their own; a push or a pop wakes the one that waits where
-- it calls the signal of its condition variable, and a wait can end without a signal. In
-- Mutex/Critical and Condvar/Forked each statement under a lock is a step. Mutex/Critical has
-- `pthread_mutex_lock` as a parameter (`RawMutex`), which succeeds only on a mutex that is not held;
-- in Condvar/Forked each process has a mutex of its own. The other tests and the example are lists of
-- statements, of which a schedule takes one after the other; a statement that waits is a run that
-- hangs, and is tried again later. A sleep there ends at any time, or, where that is asked, not before
-- the other side is where the code expects it. Their queues are any that keep what the library
-- documents: a search on the stages of a queue is carried over to them.
--
-- Not modelled: src/lib.rs and src/main.rs (logging, error texts); the tests that use the collections of
-- `alloc_collections`; examples/fork-condvar.rs, which uses the primitives of `parking_lot`; that a box in
-- shared memory gives its memory back; the measuring of the benchmark; the destruction of pthread
-- attributes, which are local to a call and whose failures are logged; and the memory model: the atomics
-- are sequentially consistent. src/autoclean.rs is modelled although its module is commented out of the
-- build.
pub mod Prelude
pub mod External
pub mod Time
pub mod Memmap
pub mod PageSize
pub mod ShmemSafe
pub mod Mutex
pub mod Condvar
pub mod ProcessRc
pub mod Allocator
pub mod Autoclean
pub mod Channel
pub mod Tests
pub mod Threads
