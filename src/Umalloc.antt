-- ===== src/Umalloc.antt =====
-- kernel/src/umalloc.c and kernel/umalloc.h: the user heap. Free blocks are a list by ascending address; an
-- allocated block begins with a header in user memory that holds its length and its owner.
mod Defs
mod Tests
pub mod FreeList
pub mod Merge
pub mod Choose
pub mod Take
pub mod Release
pub mod Calls
pub mod Fits
pub mod Free
pub mod Clear
pub mod Ends
pub mod System
pub mod Kept
pub mod Live
unfoldable pub use Defs.{
  header_size, merge_from, rearrange_free_list, delete_node, round_up, better, choose_from, choose,
  shrink_node, take_block, allocate_memory, change_owner, link_node, release_node, free_memory,
  get_owner, has_ownership, init_free_list, minus_one,
}
