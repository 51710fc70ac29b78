-- ===== src/Trap.antt =====
-- kernel/src/trap.c: what the kernel does at a trap, from trampoline.S to trapret.S.
pub mod Defs
pub mod Fault
pub mod Closes
pub mod Opens
pub mod Corner
pub mod Returns
pub mod Interrupts
mod Tests
