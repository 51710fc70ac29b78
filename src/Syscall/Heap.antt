-- ===== src/Syscall/Heap.antt =====
-- sys_malloc and sys_free of kernel/src/callimpl.c, end to end.
use sofie_os.Base.{
  ℕ, ◌+◌, ◌*◌, ◌-◌, ◌≤◌, ◌<◌, ◌≡◌, ◌≢◌, sym, ap, ◌∙◌, true, false, ◌&&◌, ◌||◌, some, none, List,
  ◌∷◌, ◌==◌, if◌then◌else◌, arith,
}
use sofie_os.Word.{word_size, add32, sub32}
use sofie_os.Memory.{load32, store32, load32-store32, load32-store32_apart}
use sofie_os.Metal.{Metal, Lawful}
use sofie_os.Pmp.{current_slot}
use sofie_os.Pmp.Slots.{Ranges}
use sofie_os.Kernel.{FreeListNode, Task, Kernel, done}
use sofie_os.Buffer.{has_address}
use sofie_os.Buffer.Lookup.{entry_at}
use sofie_os.Umalloc.{header_size, round_up, choose, allocate_memory, free_memory}
use sofie_os.Umalloc.FreeList.{IsLaidOut, IsClear, is_free, in_block, free_bytes}
use sofie_os.Umalloc.Merge.{add32_fits}
use sofie_os.Umalloc.Ends.{Allocates, refused, served, allocate_memory-Allocates}
use sofie_os.Umalloc.Release.{links}
use sofie_os.Umalloc.Take.{take_block_lem}
use sofie_os.Umalloc.Calls.{
  round_up-lt, round_up_bounds, IsServing, IsCurrent, allocate_memory-block,
}
use sofie_os.Umalloc.Free.{free_memory-frees}
use sofie_os.Syscall.{argraw, sys_malloc, sys_free}

module _ {Dev : Type 0} ⦃metal : Metal Dev⦄ where
  sys_malloc_run :
      (j : ℕ) (t : Task) (k : Kernel Dev)
      → IsCurrent j t k
      → sys_malloc k ≡ allocate_memory (add32 t.trapframe.a0 header_size) k
  unfolding sys_malloc argraw
  sys_malloc_run j t k cur = ground (arith, cur.here, cur.task)

  sys_free_run :
      (j : ℕ) (t : Task) (k k' : Kernel Dev)
      → IsCurrent j t k
      → free_memory t.trapframe.a0 k ≡ done tt k'
      → sys_free k ≡ done 0 k'
  unfolding sys_free argraw
  sys_free_run j t k k' cur run = ground (arith, cur.here, cur.task)

  -- On a lawful device, in a running kernel where a task is current whose id fits in 32 bits, where
  -- malloc has a node, the size in the task's a0 leaves room for the header and the rounding below
  -- 2^32, a block is chosen for their sum and its buffer has no entry yet: sys_malloc returns an
  -- address `a` such that the bytes that the task asked for, from `a` on, lie in the heap behind a
  -- header, were free before and are not free afterwards. The header names the task as owner, and a
  -- buffer entry without an owner covers at least those bytes; the PMP slot next in turn is set to that
  -- entry's range. The tasks are as before.
  pub sys_malloc-serves :
      (laws : Lawful metal) (lo hi i j m : ℕ) (rest : List ℕ) (c : FreeListNode) (t : Task)
      (k : Kernel Dev)
      → IsServing lo hi k
      → k.mallocs ≡ m ∷ rest
      → m ≢ 0
      → IsCurrent j t k
      → t.tid < word_size
      → t.trapframe.a0 + 11 < word_size
      → choose (round_up (t.trapframe.a0 + header_size)) k.free_list ≡ some (i, c)
      → has_address (c.address + header_size) k.buffers ≡ false
      → let a = c.address + header_size in
        (k' : Kernel Dev) × (sys_malloc k ≡ done a k')
        × (lo + header_size ≤ a)
        × (a + t.trapframe.a0 ≤ hi)
        × ((x : ℕ)
            → a ≤ x
            → x < a + t.trapframe.a0
            → (is_free k.free_list x ≡ true) × (is_free k'.free_list x ≡ false))
        × (load32 k'.mem (c.address + 4) ≡ t.tid)
        × ((n : ℕ) × (t.trapframe.a0 ≤ n)
            × (entry_at a k'.buffers ≡ some (record { address = a; length = n; owner = 0 })))
        × Ranges metal
            (2 * current_slot k.pmp.stack_pmp k.pmp.pmp_robin)
            (2 * current_slot k.pmp.stack_pmp k.pmp.pmp_robin + 1)
            a
            (add32 a (round_up (t.trapframe.a0 + header_size) - header_size))
            1
            k.pmp.dev
            k'.pmp.dev
        × (k'.current ≡ k.current)
        × (k'.tasks ≡ k.tasks)
  unfolding in_block
  sys_malloc-serves laws lo hi i j m rest c t k s e ne cur small fits chosen fresh =
      let size = t.trapframe.a0 + header_size in
      let n = round_up size in
      let a = c.address + header_size in
      let whole : add32 t.trapframe.a0 header_size ≡ size =
        add32_fits t.trapframe.a0 header_size (omega arith) in
      let (covers, near, aligned) = round_up_bounds size (omega arith) in
      let (w, above, below, split, apart, total) =
        take_block_lem lo hi n i c k.free_list s.fits s.laid_out chosen in
      let (k', run, mallocs, list, length, owner, sorted, entries, range, here, tasks) =
        allocate_memory-block laws lo hi size i j m rest c t k s e ne cur small (omega arith) chosen
          fresh in
      (
        k',
        sys_malloc_run j t k cur ∙ ap (λ z. allocate_memory z k) whole ∙ run,
        omega arith,
        omega arith,
        λ x p q.
            let inside : in_block (record { address = c.address; length = n }) x ≡ true =
              ground arith in
            (ground (arith, split x, inside), ap (λ l. is_free l x) list ∙ apart x inside),
        owner,
        (n - header_size, omega arith, entries a ∙ ground arith),
        range,
        here,
        tasks,
      )

  -- How much of the heap a served call takes.
  served_small :
      (lo hi size a : ℕ) (k k' : Kernel Dev)
      → IsServing lo hi k
      → hi + header_size < word_size
      → Allocates size k a k'
      → a ≢ 0
      → round_up size ≤ header_size
      → (load32 k'.mem (a - header_size) ≤ header_size)
        × (free_bytes k.free_list ≤ free_bytes k'.free_list + header_size)
  served_small lo hi size a k k' s room (refused none_fits null same) ne little = absurd (ne null)
  served_small lo hi size a k k' s room (served i tid c chosen at list mem g) ne little =
      let (w, above, below, split, apart, total) =
        take_block_lem lo hi (round_up size) i c k.free_list s.fits s.laid_out chosen in
      let back : a - header_size ≡ c.address =
        omega (arith, at, add32_fits c.address header_size (omega (arith, s.fits))) in
      let length : load32 k'.mem (a - header_size) ≡ round_up size =
        ap (λ x. load32 k'.mem x) back
        ∙ ap (λ z. load32 z c.address) mem
        ∙ load32-store32_apart (store32 k.mem c.address (round_up size)) (c.address + 4) tid
            c.address (omega arith)
        ∙ load32-store32 k.mem c.address (round_up size) (round_up-lt size) in
      (omega (arith, length), omega (arith, total, ap (λ l. free_bytes l) list))

  -- Of a size that is at most 8 below 2^32 the sum with the header's size wraps: on a lawful device,
  -- in a running kernel whose heap ends more than 8 bytes below 2^32, a call of sys_malloc that returns
  -- an address for such a size has taken at most 8 bytes off the free list, the block's header
  -- included, and the header holds at most 8.
  pub sys_malloc-wraps :
      (laws : Lawful metal) (lo hi j a : ℕ) (t : Task) (k k' : Kernel Dev)
      → IsServing lo hi k
      → hi + header_size < word_size
      → IsCurrent j t k
      → word_size ≤ t.trapframe.a0 + header_size
      → t.trapframe.a0 < word_size
      → sys_malloc k ≡ done a k'
      → a ≢ 0
      → (load32 k'.mem (a - header_size) ≤ header_size)
        × (free_bytes k.free_list ≤ free_bytes k'.free_list + header_size)
  unfolding round_up add32
  sys_malloc-wraps laws lo hi j a t k k' s room cur wraps small run ne =
      let size = add32 t.trapframe.a0 header_size in
      served_small lo hi size a k k' s room
        (allocate_memory-Allocates laws size a k k'
          (record { sorted = s.sorted; ready = s.ready; in_turn = s.in_turn })
          (sym (sys_malloc_run j t k cur) ∙ run))
        ne (omega arith)

  -- In a running kernel where a task is current and malloc has a node, sys_free returns 0 for an
  -- address behind a header whose block is not empty, lies in the heap and overlaps no free block,
  -- whoever owns the block: the owner in the header makes no difference. A byte is free afterwards just
  -- if it was before, or is one of the block's and the list was empty or held a block above this one;
  -- the buffer entries lose exactly the one at the address.
  pub sys_free-frees :
      (lo hi j m : ℕ) (rest : List ℕ) (t : Task) (k : Kernel Dev)
      → IsServing lo hi k
      → IsCurrent j t k
      → k.mallocs ≡ m ∷ rest
      → m ≢ 0
      → let block = sub32 t.trapframe.a0 header_size in
        let node : FreeListNode = record { address = block; length = load32 k.mem block } in
        0 < node.length
        → lo ≤ node.address
        → node.address + node.length ≤ hi
        → IsClear node k.free_list
        → (k' : Kernel Dev) × (sys_free k ≡ done 0 k')
          × IsLaidOut lo hi k'.free_list
          × ((x : ℕ)
              → is_free k'.free_list x
                ≡ (links block k.free_list && in_block node x || is_free k.free_list x))
          × ((a : ℕ)
              → entry_at a k'.buffers
                ≡ (if t.trapframe.a0 == a then none else entry_at a k.buffers))
  sys_free-frees lo hi j m rest t k s cur e ne some_bytes low high clear =
      let (k', run, laid, joined, bytes, sorted, entries) =
        free_memory-frees lo hi t.trapframe.a0 m rest k s e ne some_bytes low high clear in
      (k', sys_free_run j t k k' cur run, laid, bytes, entries)
