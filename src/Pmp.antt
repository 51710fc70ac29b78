-- ===== src/Pmp.antt =====
-- kernel/src/pmp.c and kernel/pmp.h: the eight PMP regions as four pairs, three of which the kernel
-- hands out in turn to the buffers that a task touches. `Pmp Dev` holds the driver's device and the
-- two static variables of pmp.c. A function returns `none` where the source panics. What dump_pmp
-- prints is left out.
mod Defs
mod Tests
pub mod Device
pub mod Slots
pub mod Switch
pub use Defs.{Pmp, Settings}
unfoldable pub use Defs.{
  dynamic_start, dynamic_end, heap_start, heap_end, stack_start, stack_end, all_end, dump_pmp,
  pmp_initialization, set_top_of_range, clear_pair, clear_buffer_access, take_slot, choose_slot,
  enable_buffer_access, log_from, log_pmp_settings, restore_from, restore_pmp_settings,
  current_slot, forget_stack, restored_config,
}
