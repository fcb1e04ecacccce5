-- ===== src/Tests.antt =====
-- The theorems applied at concrete inputs, a module for each part of the program.
mod Allocator
mod Usable
mod Chunks
mod Sorting
mod Clocks
mod Waits
mod Programs
mod Channel
mod Handles
mod Fifo
mod PingPong
mod Wakeups
mod Types
