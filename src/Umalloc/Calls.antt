-- ===== src/Umalloc/Calls.antt =====
-- The calls of kernel/src/umalloc.c as a whole: free list, block headers, buffer entries.
use sofie_os.Base.{
  ℕ, ◌+◌, ◌*◌, ◌-◌, ◌%◌, ◌≤◌, ◌<◌, ◌≡◌, ◌≢◌, ap, ◌∙◌, some, none, List, ◌∷◌, false, get_elem?, All,
  arith, ◌==◌, if◌then◌else◌,
}
use sofie_os.Word.{sub32_fits, word_size, add32, sub32}
use sofie_os.Memory.{load32, store32, load32-store32, load32-store32_apart}
use sofie_os.Metal.{Metal, Lawful}
use sofie_os.Pmp.Device.{IsReady}
use sofie_os.Pmp.{current_slot}
use sofie_os.Pmp.Slots.{InTurn, Ranges}
use sofie_os.Kernel.{FreeListNode, Task, Kernel, done}
use sofie_os.Buffer.{has_address}
use sofie_os.Buffer.Order.{IsSorted}
use sofie_os.Buffer.Lookup.{entry_at}
use sofie_os.Buffer.Calls.{add_buffer_entry-new}
use sofie_os.Umalloc.Defs.{header_size, round_up, choose, take_block, allocate_memory}
use sofie_os.Umalloc.FreeList.{IsLaidOut}
use sofie_os.Umalloc.Choose.{choose-none}
use sofie_os.Umalloc.Merge.{add32_fits}
use sofie_os.Umalloc.Take.{take_block_lem}

pub round_up-lt : (size : ℕ) → round_up size < word_size
unfolding round_up add32
round_up-lt size = omega arith

-- Where size + 3 fits in 32 bits, the size that allocate_memory rounds to is the least multiple of 4
-- that is at least the size.
pub round_up_bounds :
    (size : ℕ)
    → size + 3 < word_size
    → (size ≤ round_up size) × (round_up size < size + 4) × (round_up size % 4 ≡ 0)
unfolding round_up add32
round_up_bounds size h = omega arith

module _ {Dev : Type 0} ⦃metal : Metal Dev⦄ where
  -- Where no block is chosen, allocate_memory returns 0 and changes nothing, and every free block is
  -- shorter than the size rounded up to a multiple of 4.
  pub allocate_memory-none :
      (size : ℕ) (k : Kernel Dev)
      → choose (round_up size) k.free_list ≡ none
      → (allocate_memory size k ≡ done 0 k)
        × All (λ (n : FreeListNode). n.length < round_up size) k.free_list
  unfolding allocate_memory
  allocate_memory-none size k e = (ground arith, choose-none (round_up size) k.free_list e)

  -- The state of a running kernel: the free list is laid out between `lo` and `hi`, which fits in 32
  -- bits, the buffer entries are in order, the device has no locked region, and the slots to use next
  -- exist.
  pub record IsServing (lo hi : ℕ) (k : Kernel Dev) : Type 0 where
    pub fits : hi < word_size
    pub laid_out : IsLaidOut lo hi k.free_list
    pub sorted : IsSorted k.buffers
    pub ready : IsReady metal k.pmp.dev
    pub in_turn : InTurn k.pmp

  -- The task at the place `j` runs.
  pub record IsCurrent (j : ℕ) (t : Task) (k : Kernel Dev) : Type 0 where
    pub here : k.current ≡ some j
    pub task : get_elem? k.tasks j ≡ some t

  -- On a lawful device, in a running kernel where a task is current whose id fits in 32 bits,
  -- malloc has a node, a block is chosen for the rounded size, which holds the header, and its
  -- buffer has no entry yet, allocate_memory returns the address behind the block's header. The
  -- header then holds the rounded size and the running task's id; the block is taken off the free
  -- list; the buffer entries gain exactly the block without its header; the PMP slot next in turn is set
  -- to the same range; and the tasks are as before.
  pub allocate_memory-block :
      (laws : Lawful metal) (lo hi size i j m : ℕ) (rest : List ℕ) (c : FreeListNode) (t : Task)
      (k : Kernel Dev)
      → IsServing lo hi k
      → k.mallocs ≡ m ∷ rest
      → m ≢ 0
      → IsCurrent j t k
      → t.tid < word_size
      → header_size ≤ round_up size
      → choose (round_up size) k.free_list ≡ some (i, c)
      → has_address (c.address + header_size) k.buffers ≡ false
      → let n = round_up size in
        let a = c.address + header_size in
        (k' : Kernel Dev) × (allocate_memory size k ≡ done a k')
        × (k'.mallocs ≡ rest)
        × (k'.free_list ≡ take_block n (i, c) k.free_list)
        × (load32 k'.mem c.address ≡ n)
        × (load32 k'.mem (c.address + 4) ≡ t.tid)
        × IsSorted k'.buffers
        × ((b : ℕ)
            → entry_at b k'.buffers ≡ (
                if a == b
                then some (record { address = a; length = n - header_size; owner = 0 })
                else entry_at b k.buffers))
        × Ranges metal
            (2 * current_slot k.pmp.stack_pmp k.pmp.pmp_robin)
            (2 * current_slot k.pmp.stack_pmp k.pmp.pmp_robin + 1)
            a
            (add32 a (n - header_size))
            1
            k.pmp.dev
            k'.pmp.dev
        × (k'.current ≡ k.current)
        × (k'.tasks ≡ k.tasks)
  unfolding allocate_memory
  allocate_memory-block laws lo hi size i j m rest c t k s e ne cur small big chosen fresh =
      let n = round_up size in
      let (w, low, high, split, apart, total) =
        take_block_lem lo hi n i c k.free_list s.fits s.laid_out chosen in
      let a = c.address + header_size in
      let at : add32 c.address header_size ≡ a = add32_fits c.address header_size (omega arith) in
      let len : sub32 n header_size ≡ n - header_size =
        sub32_fits n header_size big (round_up-lt size) in
      let mem1 = store32 k.mem c.address n in
      let k1 : Kernel Dev = record k {
        mem = store32 mem1 (c.address + 4) t.tid;
        free_list = take_block n (i, c) k.free_list;
      } in
      let (k', run, sorted, entries, ready, range, same) =
        add_buffer_entry-new laws a (n - header_size) 0 m rest k1 s.sorted e ne fresh s.ready
          s.in_turn (omega arith) in
      let mem' : k'.mem ≡ k1.mem = ap (λ z. z.mem) same in
      (
        k',
        ground (arith, run, at, len),
        ap (λ z. z.mallocs) same,
        ap (λ z. z.free_list) same,
        ap (λ z. load32 z c.address) mem'
            ∙ load32-store32_apart mem1 (c.address + 4) t.tid c.address (omega arith)
            ∙ load32-store32 k.mem c.address n (round_up-lt size),
        ap (λ z. load32 z (c.address + 4)) mem' ∙ load32-store32 mem1 (c.address + 4) t.tid small,
        sorted,
        entries,
        range,
        ap (λ z. z.current) same,
        ap (λ z. z.tasks) same,
      )
