-- ===== src/Umalloc/Fits.antt =====
-- Every call of allocate_memory of kernel/src/umalloc.c while malloc has nodes.
use sofie_os.Base.{
  ℕ, ◌+◌, ◌≤◌, ◌<◌, ◌≡◌, ◌≢◌, ◌⊎◌, inl, inr, some, List, ◌∷◌, All, get_elem?, Bool-cases,
  Option-cases, arith,
}
use sofie_os.Word.{add32, sub32}
use sofie_os.Memory.{store32}
use sofie_os.Metal.{Metal, Lawful}
use sofie_os.Kernel.{FreeListNode, Task, Kernel, done}
use sofie_os.Buffer.{has_address}
use sofie_os.Buffer.Calls.{add_buffer_entry-new, add_buffer_entry-known}
use sofie_os.Umalloc.Defs.{header_size, round_up, choose, take_block, allocate_memory}
use sofie_os.Umalloc.Choose.{choose_best, choose_found}
use sofie_os.Umalloc.Merge.{add32_fits}
use sofie_os.Umalloc.Take.{take_block_lem}
use sofie_os.Umalloc.Calls.{IsServing, IsCurrent, allocate_memory-none}

module _ {Dev : Type 0} ⦃metal : Metal Dev⦄ where
  -- The call where a block is chosen, whether its buffer has an entry or not.
  allocate_memory-ends :
      (laws : Lawful metal) (lo hi size i j m : ℕ) (rest : List ℕ) (c : FreeListNode) (t : Task)
      (k : Kernel Dev)
      → IsServing lo hi k
      → k.mallocs ≡ m ∷ rest
      → m ≢ 0
      → IsCurrent j t k
      → choose (round_up size) k.free_list ≡ some (i, c)
      → c.address + header_size ≤ hi
      → (k' : Kernel Dev) × (allocate_memory size k ≡ done (c.address + header_size) k')
  unfolding allocate_memory
  allocate_memory-ends laws lo hi size i j m rest c t k s e ne cur chosen room =
      let n = round_up size in
      let a = c.address + header_size in
      let len = sub32 n header_size in
      let at : add32 c.address header_size ≡ a =
        add32_fits c.address header_size (omega (arith, s.fits)) in
      let k1 : Kernel Dev = record k {
        mem = store32 (store32 k.mem c.address n) (c.address + 4) t.tid;
        free_list = take_block n (i, c) k.free_list;
      } in
      elim (Bool-cases (has_address a k.buffers)) [
        | inl known ↦
            let run = add_buffer_entry-known a len 0 m rest k1 s.sorted e ne known in
            (record k1 { mallocs = rest }, ground (arith, chosen, cur.here, cur.task, run, at))
        | inr fresh ↦
            let (k2, run, sorted, entries, ready, range, same) =
              add_buffer_entry-new laws a len 0 m rest k1 s.sorted e ne fresh s.ready s.in_turn
                (omega (arith, s.fits)) in
            (k2, ground (arith, chosen, cur.here, cur.task, run, at))
      ]

  -- On a lawful device, in a running kernel where a task is current and malloc has a node, a call of
  -- allocate_memory for a size that holds a header always returns. If every free block is shorter than the
  -- rounded size, it returns 0 and changes nothing. Else it returns the address behind the header of the
  -- first part of a free block, in the heap, that is long enough and no longer than any other that is.
  pub allocate_memory_best :
      (laws : Lawful metal) (lo hi size j m : ℕ) (rest : List ℕ) (t : Task) (k : Kernel Dev)
      → IsServing lo hi k
      → k.mallocs ≡ m ∷ rest
      → m ≢ 0
      → IsCurrent j t k
      → header_size ≤ round_up size
      → (All (λ (n : FreeListNode). n.length < round_up size) k.free_list
          × (allocate_memory size k ≡ done 0 k))
        ⊎ ((i : ℕ) × (c : FreeListNode) × (k' : Kernel Dev) × (get_elem? k.free_list i ≡ some c)
            × (round_up size ≤ c.length)
            × All (λ (n : FreeListNode). round_up size ≤ n.length → c.length ≤ n.length) k.free_list
            × (lo ≤ c.address)
            × (c.address + round_up size ≤ hi)
            × (allocate_memory size k ≡ done (c.address + header_size) k'))
  allocate_memory_best laws lo hi size j m rest t k s e ne cur holds =
      let n = round_up size in
      elim (Option-cases (choose n k.free_list)) [
        | inl nothing ↦ let (run, short) = allocate_memory-none size k nothing in inl (short, run)
        | inr ((i, c), chosen) ↦
            let (at, enough) = choose_found n i c k.free_list chosen in
            let (w, low, high, split, apart, total) =
              take_block_lem lo hi n i c k.free_list s.fits s.laid_out chosen in
            let (k', run) =
              allocate_memory-ends laws lo hi size i j m rest c t k s e ne cur chosen
                (omega arith) in
            inr (i, c, k', at, enough, choose_best n i c k.free_list chosen, low, high, run)
      ]
