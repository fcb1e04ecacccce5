-- ===== src/Channel.antt =====
-- src/channel.rs: a queue in shared memory between the senders and receivers of several processes.
-- An operation is a function of what it sees: each load of an atomic, each try of the lock and each
-- wake-up is an argument, so that every interleaving is some choice of the arguments. The queue is
-- touched under the lock alone; an outcome says what it was then and what it is made.
pub mod Inner
pub mod Queue
pub mod Receive
pub mod ReceiveUntil
pub mod Send
pub mod SendUntil
pub mod Handles
pub mod Lifetime
pub mod Waiting
pub mod Calls
pub mod Sound
pub mod Fifo
pub mod PingPong
pub mod Line
pub mod Simple
pub mod Replying
pub mod Opening
pub mod Processes
pub mod Wakeups
pub mod Endpoints
