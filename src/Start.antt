-- ===== src/Start.antt =====
-- The start of the kernel: kernel/src/kernel_main.c, trap_initialization of kernel/src/trap.c, and the
-- clock and the timer of kernel/src/cpu.c.
mod Defs
pub mod Boot
pub mod Privilege
mod Tests
unfoldable pub use Defs.{
  delay, cpu_clock_init, init_timer, update_timercmp, init_privilege, trap_initialization, boot,
}
