-- ===== src/Trap/Corner.antt =====
-- The corner case of store_access_fault_handler in kernel/src/trap.c.
use sofie_os.Base.{ℕ, ◌+◌, ◌*◌, ◌<◌, ◌≤◌, ◌≡◌, refl, false, some, List, ◌∷◌, arith, get_elem?}
use sofie_os.Word.{add32, sub32-lt, word_size}
use sofie_os.Riscv.{Registers}
use sofie_os.Metal.{Metal, Lawful}
use sofie_os.Pmp.{current_slot}
use sofie_os.Pmp.Device.{IsReady}
use sofie_os.Pmp.Slots.{InTurn, Ranges, enable-Ranges}
use sofie_os.Kernel.{Stack, Task, Kernel, done}
use sofie_os.Stack.{top_stack}
use sofie_os.Trap.Defs.{
  in_frame_of, overflows, open_range, store_access_fault_handler, previous_frame,
}
use sofie_os.Trap.Opens.{named_end}

module _ {Dev : Type 0} ⦃metal : Metal Dev⦄ where
  -- An access by a task on its first stack, outside the part of the stack that it may touch and where
  -- the stack need not grow, that lies between its frame pointer and 8 bytes below the address that the
  -- word under the frame pointer gives. Whatever lies there, be it a buffer of another task: on a lawful
  -- device with no locked region, where the slots to use next exist and the frame pointer is below
  -- 2^32, store_access_fault_handler succeeds and sets the slot next in turn to exactly this range,
  -- with read and write access. No other region changes, and nothing else but the count of misses.
  pub fault-corner :
      (laws : Lawful metal) (csr : Registers) (k : Kernel Dev) (i : ℕ) (t : Task) (s : Stack)
      (rest : List Stack)
      → k.current ≡ some i
      → get_elem? k.tasks i ≡ some t
      → t.stacks ≡ s ∷ rest
      → in_frame_of t csr.mtval ≡ false
      → overflows t s ≡ false
      → s.fp ≡ 0
      → t.trapframe.fp ≤ csr.mtval
      → csr.mtval < named_end k t
      → IsReady metal k.pmp.dev
      → InTurn k.pmp
      → t.trapframe.fp < word_size
      → let slot = current_slot k.pmp.stack_pmp k.pmp.pmp_robin in
        (k' : Kernel Dev) × (store_access_fault_handler csr k ≡ done tt k')
        × IsReady metal k'.pmp.dev
        × Ranges metal
            (2 * slot)
            (2 * slot + 1)
            t.trapframe.fp
            (named_end k t)
            1
            k.pmp.dev
            k'.pmp.dev
        × (k' ≡ record k { miss = add32 k.miss 1; pmp = k'.pmp })
  unfolding store_access_fault_handler top_stack previous_frame open_range
  fault-corner laws csr k i t s rest current task stacks outside fits first from below ready turn
        small =
      let (q, on, ready', range, next, stack) =
        enable-Ranges laws t.trapframe.fp (named_end k t) 0 k.pmp ready small (sub32-lt _ 8)
          turn.current in
      (
        record k { miss = add32 k.miss 1; pmp = q },
        ground (arith, current, task, stacks, outside, fits, first, from, below, on),
        ready',
        range,
        refl,
      )
