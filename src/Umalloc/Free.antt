-- ===== src/Umalloc/Free.antt =====
-- free_memory as a whole call, alone and behind the allocate_memory whose block it takes back.
use sofie_os.Base.{
  ℕ, ◌+◌, ◌≤◌, ◌<◌, ◌≡◌, ◌≢◌, sym, ap, ap₂, subst, ◌∙◌, some, none, List, [], ◌∷◌, true, false,
  ◌&&◌, ◌||◌, All, arith, ◌==◌, if◌then◌else◌,
}
use sofie_os.Word.{sub32_fits, word_size, sub32}
use sofie_os.Memory.{load32}
use sofie_os.Metal.{Metal, Lawful}
use sofie_os.Kernel.{FreeListNode, Task, Kernel, done}
use sofie_os.Buffer.{has_address}
use sofie_os.Buffer.Order.{IsSorted}
use sofie_os.Buffer.Lookup.{entry_at, entry_at_missing}
use sofie_os.Buffer.Calls.{remove_buffer_entry-entries}
use sofie_os.Umalloc.Defs.{
  header_size, round_up, choose, take_block, allocate_memory, release_node, free_memory,
}
use sofie_os.Umalloc.FreeList.{IsLaidOut, IsCoalesced, IsClear, in_block, is_free}
use sofie_os.Umalloc.Take.{take_block_lem, take_block-IsClear}
use sofie_os.Umalloc.Release.{links, release_node_lem, not_linked, not-free_of_clear}
use sofie_os.Umalloc.Calls.{IsServing, IsCurrent, allocate_memory-block}

module _ {Dev : Type 0} ⦃metal : Metal Dev⦄ where
  free_memory-runs :
      (address m : ℕ) (rest : List ℕ) (k : Kernel Dev)
      → k.mallocs ≡ m ∷ rest
      → m ≢ 0
      → IsSorted k.buffers
      → let block = sub32 address header_size in
        (k' : Kernel Dev) × (free_memory address k ≡ done tt k')
        × (k'.free_list
            ≡ release_node (record { address = block; length = load32 k.mem block }) k.free_list)
        × IsSorted k'.buffers
        × ((a : ℕ) → entry_at a k'.buffers ≡ (if address == a then none else entry_at a k.buffers))
  unfolding free_memory
  free_memory-runs address m rest k e ne s =
      let k1 : Kernel Dev = record k { mallocs = rest } in
      let (k2, run, sorted, entries, same) = remove_buffer_entry-entries address k1 s in
      let block = sub32 address header_size in
      let node : FreeListNode = record { address = block; length = load32 k.mem block } in
      (
        record k2 { free_list = release_node node k2.free_list },
        ground (arith, run),
        ap (λ (z : Kernel Dev). release_node node z.free_list) same,
        sorted,
        entries,
      )

  -- In a running kernel where malloc has a node, free_memory succeeds on a block that is not empty,
  -- lies between the bounds of the heap and overlaps no free block. The free list is then laid out
  -- between the same bounds with no two blocks that touch. A byte is free just if it was before, or is
  -- one of the block's and the list was empty or held a block above this one. The buffer entries lose
  -- exactly the block's.
  pub free_memory-frees :
      (lo hi address m : ℕ) (rest : List ℕ) (k : Kernel Dev)
      → IsServing lo hi k
      → k.mallocs ≡ m ∷ rest
      → m ≢ 0
      → let block = sub32 address header_size in
        let node : FreeListNode = record { address = block; length = load32 k.mem block } in
        0 < node.length
        → lo ≤ node.address
        → node.address + node.length ≤ hi
        → IsClear node k.free_list
        → (k' : Kernel Dev) × (free_memory address k ≡ done tt k')
          × IsLaidOut lo hi k'.free_list
          × IsCoalesced k'.free_list
          × ((x : ℕ)
              → is_free k'.free_list x
                ≡ (links block k.free_list && in_block node x || is_free k.free_list x))
          × IsSorted k'.buffers
          × ((a : ℕ)
              → entry_at a k'.buffers ≡ (if address == a then none else entry_at a k.buffers))
  free_memory-frees lo hi address m rest k s e ne some_bytes low high clear =
      let (k', run, list, sorted, entries) = free_memory-runs address m rest k e ne s.sorted in
      let block = sub32 address header_size in
      let node : FreeListNode = record { address = block; length = load32 k.mem block } in
      let (w, joined, bytes) =
        release_node_lem lo hi node s.fits some_bytes low high k.free_list s.laid_out clear in
      (
        k',
        run,
        subst (λ l. IsLaidOut lo hi l) (sym list) w,
        subst (λ l. IsCoalesced l) (sym list) joined,
        λ x. ap (λ l. is_free l x) list ∙ bytes x,
        sorted,
        entries,
      )

  -- A block that is not empty, overlaps no free block and lies above every free block, while some block is
  -- free, is lost by free_memory in a running kernel where malloc has a node: the call succeeds, and
  -- afterwards none of the block's bytes is free.
  pub free_memory-loses :
      (lo hi address m x : ℕ) (rest : List ℕ) (k : Kernel Dev)
      → IsServing lo hi k
      → k.mallocs ≡ m ∷ rest
      → m ≢ 0
      → let block = sub32 address header_size in
        let node : FreeListNode = record { address = block; length = load32 k.mem block } in
        0 < node.length
        → lo ≤ node.address
        → node.address + node.length ≤ hi
        → IsClear node k.free_list
        → k.free_list ≢ []
        → All (λ (p : FreeListNode). p.address ≤ block) k.free_list
        → in_block node x ≡ true
        → (k' : Kernel Dev) × (free_memory address k ≡ done tt k')
          × (is_free k'.free_list x ≡ false)
  free_memory-loses lo hi address m x rest k s e ne some_bytes low high clear nonempty below
        inside =
      let (k', run, w, joined, bytes, sorted, entries) =
        free_memory-frees lo hi address m rest k s e ne some_bytes low high clear in
      let block = sub32 address header_size in
      let node : FreeListNode = record { address = block; length = load32 k.mem block } in
      (
        k',
        run,
        bytes x
            ∙ ground (
              arith,
              not_linked block k.free_list nonempty below,
              not-free_of_clear node x k.free_list clear inside,
            ),
      )

  -- Under the conditions of allocate_memory-block, and with a second node for malloc, where some free
  -- block remains above the block, or none at all, free_memory undoes allocate_memory: exactly the
  -- bytes that were free before are free again, and the buffer entries are the same as a map from
  -- addresses.
  pub free-allocate :
      (laws : Lawful metal) (lo hi size i j m m' : ℕ) (rest : List ℕ) (c : FreeListNode) (t : Task)
      (k : Kernel Dev)
      → IsServing lo hi k
      → k.mallocs ≡ m ∷ m' ∷ rest
      → m ≢ 0
      → m' ≢ 0
      → IsCurrent j t k
      → t.tid < word_size
      → header_size ≤ round_up size
      → choose (round_up size) k.free_list ≡ some (i, c)
      → has_address (c.address + header_size) k.buffers ≡ false
      → links c.address (take_block (round_up size) (i, c) k.free_list) ≡ true
      → let a = c.address + header_size in
        (k' k'' : Kernel Dev) × (allocate_memory size k ≡ done a k')
        × (free_memory a k' ≡ done tt k'')
        × ((x : ℕ) → is_free k''.free_list x ≡ is_free k.free_list x)
        × ((b : ℕ) → entry_at b k''.buffers ≡ entry_at b k.buffers)
  free-allocate laws lo hi size i j m m' rest c t k s e ne ne' cur small big chosen fresh linked =
      let n = round_up size in
      let a = c.address + header_size in
      let block : FreeListNode = record { address = c.address; length = n } in
      let left = take_block n (i, c) k.free_list in
      let (w, low, high, split, apart, total) =
        take_block_lem lo hi n i c k.free_list s.fits s.laid_out chosen in
      let clear = take_block-IsClear lo hi n i c k.free_list s.fits s.laid_out chosen in
      let (k', run, pool, list, len, owner, sorted, entries, range, here, same) =
        allocate_memory-block laws lo hi size i j m (m' ∷ rest) c t k s e ne cur small big chosen
          fresh in
      let (k'', run', list', sorted', entries') = free_memory-runs a m' rest k' pool ne' sorted in
      let at : sub32 a header_size ≡ c.address =
        sub32_fits a header_size (omega arith) (omega arith) ∙ omega arith in
      let back : record {
        address = sub32 a header_size;
        length = load32 k'.mem (sub32 a header_size);
      }
          ≡ block =
        rw at (rw len) in
      let (w', joined, bytes) =
        release_node_lem lo hi block s.fits (omega arith) low high left w clear in
      (
        k',
        k'',
        run,
        run',
        λ x.
            ap (λ l. is_free l x) (list' ∙ ap₂ release_node back list)
            ∙ bytes x
            ∙ ground (arith, linked, split x),
        λ b. ground (arith, entries' b, entries b, entry_at_missing a k.buffers fresh),
      )
