-- ===== src/Buffer.antt =====
-- kernel/src/buffer.c and kernel/buffer.h: the buffers that tasks may touch, in a list by ascending
-- address. What is printed is left out.
mod Defs
mod Tests
pub mod Order
pub mod Lookup
pub mod Calls
pub mod Revoke
pub mod Keeps
unfoldable pub use Defs.{
  insert_entry, clear_owner, remove_first, has_address, add_buffer_entry, clear_buffer_entries,
  remove_buffer_entry,
}
