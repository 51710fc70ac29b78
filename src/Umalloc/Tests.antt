-- ===== src/Umalloc/Tests.antt =====
-- Runs of the functions of kernel/src/umalloc.c.
use sofie_os.Base.{
  ℕ, ◌+◌, ◌≤◌, ◌<◌, ◌⊎◌, ◌≡◌, inl, refl, false, some, [], ◌∷◌, get_elem?, All, arith,
}
use sofie_os.Metal.Regs.{Regs, metal_regs, metal_regs-Lawful}
use sofie_os.Kernel.{FreeListNode, Kernel, Run, done}
use sofie_os.Fixture.{
  first_task, low_block, small_kernel, small_kernel-IsServing, small_kernel-IsCurrent, low_kernel,
  low_kernel-IsServing,
}
use sofie_os.Word.{add32, sub32}
use sofie_os.Memory.{load32, store32}
use sofie_os.Buffer.{has_address}
use sofie_os.Buffer.Lookup.{entry_at}
use sofie_os.Umalloc.{
  allocate_memory, free_memory, choose, take_block, release_node, round_up, header_size,
  shrink_node,
}
use sofie_os.Umalloc.FreeList.{is_free, in_block}
use sofie_os.Umalloc.Release.{links}
use sofie_os.Umalloc.Free.{free_memory-loses, free-allocate}
use sofie_os.Umalloc.System.{Heap}
use sofie_os.Umalloc.Fits.{allocate_memory_best}

free_memory-loses_example :
    let block = sub32 0x1208 header_size in
    let node : FreeListNode = record { address = block; length = load32 low_kernel.mem block } in
    (k' : Kernel Regs) × (free_memory 0x1208 low_kernel ≡ done tt k')
    × (is_free k'.free_list 0x1210 ≡ false)
unfolding sub32 load32 store32 in_block
free_memory-loses_example =
    free_memory-loses 0x1000 0x2000 0x1208 0x5000 0x1210 (0x5100 ∷ []) low_kernel
      low_kernel-IsServing refl (omega arith) (omega arith) (omega arith) (omega arith)
      (inl (omega arith), tt) (λ e. cc) (omega arith, tt) refl

free-allocate_example :
    let a = low_block.address + header_size in
    (k' k'' : Kernel Regs) × (allocate_memory 0x20 small_kernel ≡ done a k')
    × (free_memory a k' ≡ done tt k'')
    × ((x : ℕ) → is_free k''.free_list x ≡ is_free small_kernel.free_list x)
    × ((b : ℕ) → entry_at b k''.buffers ≡ entry_at b small_kernel.buffers)
unfolding round_up add32 choose links has_address take_block sofie_os.Umalloc.shrink_node
free-allocate_example =
    free-allocate metal_regs-Lawful 0x1000 0x2000 0x20 0 0 0x5000 0x5100 [] low_block first_task
      small_kernel small_kernel-IsServing refl (omega arith) (omega arith) small_kernel-IsCurrent
      (omega arith) (omega arith) refl refl refl

abbrev state_after : {A : Type 0} → Run (Kernel Regs) A → Kernel Regs
state_after (done a k) = k
state_after _ = small_kernel

-- The state after one allocation, and after two.
abbrev once : Kernel Regs
once = state_after (allocate_memory 0x20 small_kernel)

abbrev twice : Kernel Regs
twice = state_after (allocate_memory 0x20 once)

abbrev first_live : FreeListNode
first_live = record { address = 0x1000; length = 0x20 }

abbrev second_live : FreeListNode
second_live = record { address = 0x1020; length = 0x20 }

abbrev heap_once : Heap Regs
heap_once = record { kernel = once; live = first_live ∷ [] }

abbrev heap_twice : Heap Regs
heap_twice = record { kernel = twice; live = second_live ∷ first_live ∷ [] }

-- A block of 24 bytes and its header.
allocate_memory_best_example :
    (All (λ (n : FreeListNode). n.length < round_up 0x20) small_kernel.free_list
      × (allocate_memory 0x20 small_kernel ≡ done 0 small_kernel))
    ⊎ ((i : ℕ) × (c : FreeListNode) × (k' : Kernel Regs) × (get_elem? small_kernel.free_list i
          ≡ some c)
        × (round_up 0x20 ≤ c.length)
        × All
            (λ (n : FreeListNode). round_up 0x20 ≤ n.length → c.length ≤ n.length)
            small_kernel.free_list
        × (0x1000 ≤ c.address)
        × (c.address + round_up 0x20 ≤ 0x2000)
        × (allocate_memory 0x20 small_kernel ≡ done (c.address + header_size) k'))
unfolding round_up add32
allocate_memory_best_example =
    allocate_memory_best metal_regs-Lawful 0x1000 0x2000 0x20 0 0x5000 (0x5100 ∷ []) first_task
      small_kernel small_kernel-IsServing refl (omega arith) small_kernel-IsCurrent (omega arith)
