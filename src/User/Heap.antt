-- ===== src/User/Heap.antt =====
-- umalloc of kernel/src/syscall.S, from the call to the use of the block in user mode.
use sofie_os.Base.{
  ℕ, suc, ◌+◌, ◌*◌, ◌-◌, ◌%◌, ◌≤◌, ◌<◌, ◌≡◌, ◌≢◌, refl, sym, ◌∙◌, true, false, some, List, ◌∷◌, set,
  get_elem?, get_elem?-lt, get_elem?-set_self, subst, arith,
}
use sofie_os.Word.{word_size, add32, shr2}
use sofie_os.Memory.{load32, store8}
use sofie_os.Metal.{Metal, Lawful}
use sofie_os.Pmp.{current_slot}
use sofie_os.Kernel.{FreeListNode, Task, TrapFrame, Kernel, done}
use sofie_os.Buffer.{has_address}
use sofie_os.Umalloc.{header_size, round_up, choose}
use sofie_os.Umalloc.FreeList.{is_free}
use sofie_os.Umalloc.Calls.{IsServing, IsCurrent, round_up_bounds}
use sofie_os.Umalloc.Take.{take_block_lem}
use sofie_os.Syscall.{Libc, sys_malloc}
use sofie_os.Syscall.Heap.{sys_malloc-serves}
use sofie_os.Trap.Defs.{priv_user}
use sofie_os.User.Defs.{Hart, store_byte, ecall1}
use sofie_os.User.Stubs.{umalloc}
use sofie_os.User.Check.{ChecksPmp, passes_over, Ranges-permits}
use sofie_os.User.Calls.{find_syscall_numbers, called_task, called, given, ecall-returns}
use sofie_os.User.Copies.{store_byte_lem}
use sofie_os.User.Sys

-- The word of each byte asked for lies below the end of the block's entry.
below_end :
    (address size hi x : ℕ)
    → hi < word_size
    → address % 4 ≡ 0
    → size + 11 < word_size
    → address + round_up (size + header_size) ≤ hi
    → x < address + header_size + size
    → shr2 x < shr2 (add32 (address + header_size) (round_up (size + header_size) - header_size))
unfolding shr2 add32
below_end address size hi x small aligned fits inside below =
    omega (arith, round_up_bounds (size + header_size))

called-IsServing :
    {Dev : Type 0} ⦃metal : Metal Dev⦄ (hart : Hart Dev) (n lo hi j : ℕ)
    (args : TrapFrame → TrapFrame) (t : Task) (k : Kernel Dev)
    → IsServing lo hi k
    → IsServing lo hi (called hart n args j k t)
called-IsServing hart n lo hi j args t k s = record {
  fits = s.fits;
  laid_out = s.laid_out;
  sorted = s.sorted;
  ready = s.ready;
  in_turn = s.in_turn;
}

module _ {Dev : Type 0} ⦃metal : Metal Dev⦄ (libc : Libc Dev) (rounds : ℕ) (hart : Hart Dev) where
  -- On a lawful device, in a running kernel where a task is current whose id fits in 32 bits, where
  -- malloc has a node, the size leaves room for the header and the rounding below 2^32, a block at a
  -- multiple of 4 is chosen for it whose buffer has no entry yet, and no PMP region below the slot in
  -- turn matches its addresses: umalloc returns in user mode the address behind the block's header. The
  -- bytes asked for lie in the heap, were free before and are not free afterwards, the header names the
  -- task as owner, and the task can at once store to each of them without a trap.
  pub umalloc-usable :
      (laws : Lawful metal) (checks : ChecksPmp metal hart) (lo hi i j m faults size : ℕ)
      (rest : List ℕ) (c : FreeListNode) (t : Task) (k : Kernel Dev)
      → IsServing lo hi k
      → k.mallocs ≡ m ∷ rest
      → m ≢ 0
      → IsCurrent j t k
      → t.tid < word_size
      → size + 11 < word_size
      → choose (round_up (size + header_size)) k.free_list ≡ some (i, c)
      → has_address (c.address + header_size) k.buffers ≡ false
      → c.address % 4 ≡ 0
      → let a = c.address + header_size in
        ((x l : ℕ)
          → a ≤ x
          → x < a + size
          → l < 2 * current_slot k.pmp.stack_pmp k.pmp.pmp_robin
          → passes_over metal k.pmp.dev x l ≡ true)
        → (k' : Kernel Dev) × (umalloc libc rounds hart size k ≡ done a k')
          × (k'.privileges ≡ priv_user)
          × (lo + header_size ≤ a)
          × (a + size ≤ hi)
          × (load32 k'.mem (c.address + 4) ≡ t.tid)
          × ((x : ℕ)
              → a ≤ x
              → x < a + size
              → (is_free k.free_list x ≡ true)
                × (is_free k'.free_list x ≡ false)
                × ((v : ℕ)
                    → store_byte libc rounds hart (suc faults) x v k'
                      ≡ done tt (record k' { mem = store8 k'.mem x v })))
  unfolding umalloc ecall1
  umalloc-usable laws checks lo hi i j m faults size rest c t k s e ne cur small fits chosen fresh
        aligned over =
      let args = λ (f : TrapFrame). record f { a0 = size } in
      let one = called_task hart Sys.malloc args k t in
      let before = called hart Sys.malloc args j k t in
      let at_one : get_elem? (set k.tasks j one) j ≡ some one =
        get_elem?-set_self k.tasks j one (get_elem?-lt k.tasks j t cur.task) in
      let (k1, run, low, high, free, owner, entry, range, here, tasks) =
        sys_malloc-serves laws lo hi i j m rest c one before
          (called-IsServing hart Sys.malloc lo hi j args t k s) e ne
          (record { here = cur.here; task = at_one }) small fits chosen fresh in
      let call =
        ecall-returns libc rounds hart Sys.malloc args sys_malloc j (c.address + header_size) t one
          k k1 cur.here cur.task (find_syscall_numbers libc rounds).3 run (here ∙ cur.here)
          (subst (λ l. get_elem? l j ≡ some one) (sym tasks) at_one) in
      let after : Kernel Dev = record k1 {
        privileges = priv_user;
        tasks = set k1.tasks j (given (c.address + header_size) one);
      } in
      (
        after,
        call,
        refl,
        low,
        high,
        owner,
        λ x p q.
            let n = round_up (size + header_size) in
            let (w, above, inside, split, apart, total) =
              take_block_lem lo hi n i c k.free_list s.fits s.laid_out chosen in
            let passes : hart.permits k1.pmp.dev x ≡ true =
              Ranges-permits metal hart (current_slot k.pmp.stack_pmp k.pmp.pmp_robin)
                (c.address + header_size) (add32 (c.address + header_size) (n - header_size)) x
                k.pmp.dev k1.pmp.dev checks s.in_turn.current range p
                (below_end c.address size hi x s.fits aligned fits inside q)
                (λ l h. over x l p q h) in
            (
              (free x p q).0,
              (free x p q).1,
              λ v. store_byte_lem libc rounds hart faults x v after (λ user. passes),
            ),
      )
