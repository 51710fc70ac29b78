-- ===== src/User.antt =====
-- Code that runs in user mode, or in both modes: the stubs of kernel/src/syscall.S with the trap that they
-- cause, and kernel/src/memcpy.c, kernel/src/memset.c, kernel/src/uprintf.c and kernel/src/uassert.c.
pub mod Sys
pub mod Defs
pub mod Stubs
pub mod Routines
pub mod Programs
pub mod Calls
pub mod Copies
pub mod Check
pub mod Touch
pub mod Locks
pub mod Heap
pub mod Frames
pub mod Framed
mod Board
mod Tests
