-- ===== src/Trap/Fault.antt =====
-- Access faults at a buffer: store_access_fault_handler of kernel/src/trap.c.
use sofie_os.Base.{
  ℕ, zero, suc, ◌+◌, ◌*◌, ◌<◌, ◌≤◌, ◌≡◌, ◌∙◌, refl, Bool, true, false, ◌&&◌, some, List, [], ◌∷◌,
  arith, Bool-cases, inl, inr, ◌==◌, leb, ltb, if◌then◌else◌, get_elem?,
}
use sofie_os.Word.{add32-lt, add32, sub32, word_size}
use sofie_os.Memory.{load32, store32, load32-store32}
use sofie_os.Riscv.{Registers}
use sofie_os.Metal.{Metal, Lawful}
use sofie_os.Pmp.{current_slot, dump_pmp}
use sofie_os.Pmp.Device.{IsReady}
use sofie_os.Pmp.Slots.{InTurn, Ranges, enable-Ranges}
use sofie_os.Kernel.{BufferEntry, Stack, Task, Kernel, and_then, done, panicked}
use sofie_os.Umalloc.{has_ownership, change_owner}
use sofie_os.Stack.{top_stack}
use sofie_os.Syscall.{dump_from}
use sofie_os.Trap.Defs.{
  find_buffer, in_frame_of, overflows, may_touch, open_range, deny, search_buffers,
  store_access_fault_handler, previous_frame,
}

-- The current task is `t`, it runs on its first stack `s`, and no case of the handler before the
-- search of the buffers applies to an access at `a`.
pub record IsPlain {Dev : Type 0} (k : Kernel Dev) (t : Task) (s : Stack) (a : ℕ) : Type 0 where
  pub place : ℕ
  pub current : k.current ≡ some place
  pub task : get_elem? k.tasks place ≡ some t
  pub rest : List Stack
  pub stacks : t.stacks ≡ s ∷ rest
  pub outside : in_frame_of t a ≡ false
  pub fits : overflows t s ≡ false
  pub first : s.fp ≡ 0
  pub beyond :
      leb t.trapframe.fp a && ltb a (sub32 (load32 k.mem (sub32 t.trapframe.fp 8)) 8) ≡ false

-- Who may touch the buffer of an entry: an entry with an owner is its owner's; one without an owner is
-- its header's owner's if it lies in the user section, and everyone's elsewhere.
abbrev pub is_granted : {Dev : Type 0} → Kernel Dev → Task → BufferEntry → Bool
is_granted k t p =
    if p.owner == 0
    then (if leb k.layout.user_begin p.address && ltb (add32 p.address p.length) k.layout.user_end
        then load32 k.mem (sub32 p.address 8 + 4) == t.tid
        else true)
    else t.tid == p.owner

-- What find_buffer stops at is an entry of the list in which the address lies.
pub find_buffer_lem :
    (a : ℕ) (l : List BufferEntry) (p : BufferEntry)
    → find_buffer a l ≡ some p
    → (n : ℕ) × (get_elem? l n ≡ some p) × (p.address ≤ a) × (a < add32 p.address p.length)
unfolding find_buffer
find_buffer_lem a [] p e = absurd (ground arith)
find_buffer_lem a (q ∷ l) p e = elim (Bool-cases (ltb a (add32 q.address q.length))) [
  | inl here ↦ (0, ground (arith, here), ground (arith, here), ground (arith, here))
  | inr later ↦
      let (n, at, from, to) = find_buffer_lem a l p (ground (arith, later)) in
      (suc n, ground (arith, at), from, to)
]

module _ {Dev : Type 0} ⦃metal : Metal Dev⦄ where
  pub may_touch_lem :
      (k : Kernel Dev) (t : Task) (p : BufferEntry) (i : ℕ)
      → k.current ≡ some i
      → get_elem? k.tasks i ≡ some t
      → may_touch t p k ≡ done (is_granted k t p) k
  unfolding may_touch has_ownership
  may_touch_lem k t p i c e = ground arith

  dump_from_panics :
      (n i : ℕ) (k : Kernel Dev)
      → and_then {B = Unit {0}} (dump_from n i k) (λ _. panicked) ≡ panicked k
  unfolding dump_from dump_pmp
  dump_from_panics zero i k = refl
  dump_from_panics (suc n) i k = ground (arith, dump_from_panics n (i + 1) k)

  pub deny_lem : (k : Kernel Dev) → deny k ≡ panicked k
  unfolding deny
  deny_lem k = dump_from_panics 8 0 k

  -- A plain access fault comes to the search of the buffers, with one more miss.
  search_lem :
      (csr : Registers) (k : Kernel Dev) (t : Task) (s : Stack)
      → IsPlain k t s csr.mtval
      → store_access_fault_handler csr k
        ≡ search_buffers csr.mtval t s (record k { miss = add32 k.miss 1 })
  unfolding store_access_fault_handler top_stack previous_frame
  search_lem csr k t s plain = ground (
    arith, plain.current, plain.task, plain.stacks, plain.outside, plain.fits, plain.first,
    plain.beyond,
  )

  -- An access by a task on its first stack that no test on the stacks claims, inside a buffer that
  -- is not granted to the current task: the handler panics, in the state before with one more miss;
  -- it opens nothing.
  pub fault-denied :
      (csr : Registers) (k : Kernel Dev) (t : Task) (s : Stack) (p : BufferEntry)
      → IsPlain k t s csr.mtval
      → find_buffer csr.mtval k.buffers ≡ some p
      → is_granted k t p ≡ false
      → store_access_fault_handler csr k ≡ panicked (record k { miss = add32 k.miss 1 })
  unfolding search_buffers
  fault-denied csr k t s p plain found refused =
      let k' = record k { miss = add32 k.miss 1 } in
      search_lem csr k t s plain
      ∙ ground (
        arith,
        found,
        may_touch_lem k' t p plain.place plain.current plain.task,
        refused,
        deny_lem k',
      )

  -- A granted access, by a task on its first stack, that no test on the stacks claims is opened:
  -- for a buffer whose address is below 2^32, on a lawful device with no locked region, and where
  -- the slots to use next exist, store_access_fault_handler succeeds, the slot next in turn is set
  -- to exactly the buffer's range with read and write access, no other region changes, and nothing
  -- else of the state but the count of misses.
  pub fault-granted :
      (laws : Lawful metal) (csr : Registers) (k : Kernel Dev) (t : Task) (s : Stack)
      (p : BufferEntry)
      → IsPlain k t s csr.mtval
      → find_buffer csr.mtval k.buffers ≡ some p
      → is_granted k t p ≡ true
      → IsReady metal k.pmp.dev
      → InTurn k.pmp
      → p.address < word_size
      → let slot = current_slot k.pmp.stack_pmp k.pmp.pmp_robin in
        (k' : Kernel Dev) × (store_access_fault_handler csr k ≡ done tt k')
        × IsReady metal k'.pmp.dev
        × Ranges metal
            (2 * slot)
            (2 * slot + 1)
            p.address
            (add32 p.address p.length)
            1
            k.pmp.dev
            k'.pmp.dev
        × (k' ≡ record k { miss = add32 k.miss 1; pmp = k'.pmp })
  unfolding search_buffers open_range
  fault-granted laws csr k t s p plain found granted ready turn small =
      let k1 = record k { miss = add32 k.miss 1 } in
      let (q, on, ready', range, next, stack) =
        enable-Ranges laws p.address (add32 p.address p.length) 0 k.pmp ready small
          (add32-lt p.address p.length) turn.current in
      (
        record k1 { pmp = q },
        search_lem csr k t s plain
            ∙ ground (
              arith,
              found,
              may_touch_lem k1 t p plain.place plain.current plain.task,
              granted,
              on,
            ),
        ready',
        range,
        refl,
      )

  -- change_owner on a block of the user section whose entry has no owner: afterwards the buffer is
  -- granted to a task exactly if the task is the new owner. Nothing but memory changes.
  pub change_owner-is_granted :
      (k : Kernel Dev) (p : BufferEntry) (owner : ℕ)
      → p.owner ≡ 0
      → owner < word_size
      → k.layout.user_begin ≤ p.address
      → add32 p.address p.length < k.layout.user_end
      → (k' : Kernel Dev) × (change_owner p.address owner k ≡ done tt k')
        × ((t : Task) → is_granted k' t p ≡ (owner == t.tid))
        × (k' ≡ record k { mem = k'.mem })
  unfolding change_owner
  change_owner-is_granted k p owner free small begins ends = (
    record k { mem = store32 k.mem (sub32 p.address 8 + 4) owner },
    refl,
    λ t. ground (arith, load32-store32 k.mem (sub32 p.address 8 + 4) owner),
    refl,
  )
