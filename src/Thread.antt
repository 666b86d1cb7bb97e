-- ===== src/Thread.antt =====
-- Threads and their scheduling: pintos/src/threads/thread.c, the timer interrupt of
-- pintos/src/devices/timer.c, in the build without USERPROG, whose scheduler also has aging. A thread
-- is named by the address of its page. An operation runs with interrupts off, as the code arranges, and
-- ends where it gives the CPU away: `current` is then the thread switched to. `none` is a failed ASSERT.
-- Stacks, names and the code that threads run are not modelled, nor is the wrap of 64-bit counters.
pub mod State
pub mod Schedule
pub mod Sleep
pub mod Tick
pub mod Create
pub mod Placed
pub mod Valid
pub mod Switch
pub mod Block
pub mod Yield
pub mod WakeUp
pub mod Recalculate
pub mod Priority
pub mod Starvation
