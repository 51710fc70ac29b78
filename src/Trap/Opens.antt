-- ===== src/Trap/Opens.antt =====
-- What store_access_fault_handler of kernel/src/trap.c may open, on every branch.
use sofie_os.Base.{
  ℕ, ◌≤◌, ◌<◌, ◌≡◌, subst, ◌∙◌, Bool, true, ◌&&◌, not, some, ◌==◌, leb, ltb, if◌then◌else◌,
  get_elem?, arith, Bool-cases, Option-cases, List-cases, inl, inr,
}
use sofie_os.Word.{add32, sub32}
use sofie_os.Memory.{load32}
use sofie_os.Riscv.{Registers}
use sofie_os.Metal.{Metal}
use sofie_os.Pmp.{Pmp, enable_buffer_access, clear_buffer_access}
use sofie_os.Kernel.{BufferEntry, Stack, Task, Kernel, Cmd, done, and_then, and_then-done}
use sofie_os.Stack.{task_shrink_stack, top_stack}
use sofie_os.Trap.Defs.{
  find_buffer, in_frame_of, overflows, previous_frame, second_stack, open_range, move_frame,
  search_buffers, store_access_fault_handler, stack_end,
}
use sofie_os.Trap.Closes.{
  Closed, unchanged, cleared, task_expand_stack-ClosesOnly, task_shrink_stack-ClosesOnly,
}
use sofie_os.Trap.Fault.{find_buffer_lem, is_granted, may_touch_lem, deny_lem}

-- 8 bytes below the address that the word under the frame pointer gives. In a frame that the compiler laid
-- out this is the caller's frame pointer, but the task may keep any word there.
abbrev pub named_end : {Dev : Type 0} → Kernel Dev → Task → ℕ
named_end k t = sub32 (load32 k.mem (sub32 t.trapframe.fp 8)) 8

-- The PMP after a fault at `a` by the task `t`: as before, with some regions switched off, or with one
-- range opened, of one of three kinds.
pub data Opens {Dev : Type 0} ⦃metal : Metal Dev⦄ (k : Kernel Dev) (t : Task) (a : ℕ)
    : Pmp Dev → Type 0 where
  closes : {q : Pmp Dev} → Closed k.pmp q → Opens k t a q
  -- The part of the stack that is the task's own.
  frame :
      {q : Pmp Dev}
      → t.usp_bottom ≤ a
      → a < t.usp_top
      → enable_buffer_access t.usp_bottom t.usp_top 2 k.pmp ≡ some q
      → Opens k t a q
  -- From the frame pointer up to where the word under it says. Nothing is known of who owns this range.
  named :
      {q : Pmp Dev}
      → t.trapframe.fp ≤ a
      → a < named_end k t
      → enable_buffer_access t.trapframe.fp (named_end k t) 0 k.pmp ≡ some q
      → Opens k t a q
  -- A buffer that is granted to the task.
  buffer :
      {q : Pmp Dev} (n : ℕ) (p : BufferEntry)
      → get_elem? k.buffers n ≡ some p
      → p.address ≤ a
      → a < add32 p.address p.length
      → is_granted k t p ≡ true
      → enable_buffer_access p.address (add32 p.address p.length) 0 k.pmp ≡ some q
      → Opens k t a q

module _ {Dev : Type 0} ⦃metal : Metal Dev⦄ where
  open_range-opens :
      (from to mode : ℕ) (k k' : Kernel Dev)
      → open_range from to mode k ≡ done tt k'
      → enable_buffer_access from to mode k.pmp ≡ some k'.pmp
  unfolding open_range
  open_range-opens from to mode k k' run =
      elim (Option-cases (enable_buffer_access from to mode k.pmp)) [
        | inl e ↦ absurd (ground (arith, e, run))
        | inr (q, e) ↦ e ∙ ground (arith, e, run)
      ]

  move_frame-Opens :
      (a i : ℕ) (t : Task) (s : Stack) (k k' : Kernel Dev)
      → k.current ≡ some i
      → get_elem? k.tasks i ≡ some t
      → move_frame a t s k ≡ done tt k'
      → Opens k t a k'.pmp
  unfolding move_frame
  move_frame-Opens a i t s k k' cur at run =
      let fp = t.trapframe.fp in
      elim (Bool-cases (not (s.fp == 0) && fp == stack_end s && leb fp a && leb s.bottom a)) [
        | inl up ↦ closes (
            subst (Closed k.pmp) {x = k.pmp} {y = k'.pmp} (ground (arith, cur, at, run, up))
              unchanged)
        | inr other ↦ elim (Bool-cases (not (s.fp == 0) && fp == s.fp && ltb a fp)) [
          | inl down ↦ closes (
              subst (Closed k.pmp) {x = clear_buffer_access (stack_end s) k.pmp} {y = k'.pmp}
                (ground (arith, cur, at, run, other, down)) (cleared (stack_end s) k.pmp unchanged))
          | inr neither ↦ absurd (ground (arith, run, other, neither, deny_lem k))
        ]
      ]

  search_buffers-Opens :
      (a i : ℕ) (t : Task) (s : Stack) (k k' : Kernel Dev)
      → k.current ≡ some i
      → get_elem? k.tasks i ≡ some t
      → search_buffers a t s k ≡ done tt k'
      → Opens k t a k'.pmp
  unfolding search_buffers
  search_buffers-Opens a i t s k k' cur at run = elim (Option-cases (find_buffer a k.buffers)) [
    | inl none_found ↦ move_frame-Opens a i t s k k' cur at (ground (arith, none_found, run))
    | inr (p, found) ↦
        let test = may_touch_lem k t p i cur at in
        elim (Bool-cases (is_granted k t p)) [
          | inl granted ↦
              let (n, at_n, from, to) = find_buffer_lem a k.buffers p found in
              buffer n p at_n from to granted (
                open_range-opens p.address (add32 p.address p.length) 0 k k'
                  (ground (arith, found, test, granted, run)))
          | inr refused ↦ absurd (ground (arith, found, test, refused, run, deny_lem k))
        ]
  ]

  -- The count of misses makes no difference.
  Opens-miss :
      (k : Kernel Dev) (n : ℕ) (t : Task) (a : ℕ) (q : Pmp Dev)
      → Opens (record k { miss = n }) t a q
      → Opens k t a q
  Opens-miss k n t a q (closes c) = closes c
  Opens-miss k n t a q (frame b e o) = frame b e o
  Opens-miss k n t a q (named b e o) = named b e o
  Opens-miss k n t a q (buffer i p e b l g o) = buffer i p e b l g o

  -- From the read of the caller's frame pointer on.
  abbrev above_frame : ℕ → Task → Stack → Cmd (Kernel Dev) (Unit {0})
  above_frame a t s k =
      if leb t.trapframe.fp a && ltb a (named_end k t)
      then open_range t.trapframe.fp (named_end k t) 0 k
      else search_buffers a t s k

  above_frame-Opens :
      (a i : ℕ) (t : Task) (s : Stack) (k k' : Kernel Dev)
      → k.current ≡ some i
      → get_elem? k.tasks i ≡ some t
      → above_frame a t s k ≡ done tt k'
      → Opens k t a k'.pmp
  above_frame-Opens a i t s k k' cur at run =
      elim (Bool-cases (leb t.trapframe.fp a && ltb a (named_end k t))) [
        | inl above ↦
            named (ground (arith, above)) (ground (arith, above))
              (open_range-opens t.trapframe.fp (named_end k t) 0 k k' (ground (arith, above, run)))
        | inr other ↦ search_buffers-Opens a i t s k k' cur at (ground (arith, other, run))
      ]

  -- From the test on the previous stack on.
  abbrev above_stack : ℕ → Task → Stack → Cmd (Kernel Dev) (Unit {0})
  above_stack a t s k =
      and_then (previous_frame t s k)
        (λ shrink. if shrink then task_shrink_stack else above_frame a t s)

  previous_frame-state :
      (t : Task) (s : Stack) (k k' : Kernel Dev) (b : Bool)
      → previous_frame t s k ≡ done b k'
      → k ≡ k'
  unfolding previous_frame second_stack
  previous_frame-state t s k k' b run = ground (arith, run)

  above_stack-Opens :
      (a i : ℕ) (t : Task) (s : Stack) (k k' : Kernel Dev)
      → k.current ≡ some i
      → get_elem? k.tasks i ≡ some t
      → above_stack a t s k ≡ done tt k'
      → Opens k t a k'.pmp
  above_stack-Opens a i t s k k' cur at run =
      let (shrink, k1, first, second) =
        and_then-done (previous_frame t s k)
          (λ shrink. if shrink then task_shrink_stack else above_frame a t s) tt k' run in
      let same = previous_frame-state t s k k1 shrink first in
      elim (Bool-cases shrink) [
        | inl above ↦
            closes (task_shrink_stack-ClosesOnly k k' tt (ground (arith, above, same, second)))
        | inr within ↦ above_frame-Opens a i t s k k' cur at (ground (arith, within, same, second))
      ]

  -- Whenever store_access_fault_handler comes to an end, on whatever branch: the PMP is as before with
  -- some regions switched off, or one range was opened in which the access lies. The range is the
  -- task's own part of its stack; or it goes from the task's frame pointer to 8 bytes below the address
  -- that the word under the frame pointer gives, and nothing says who owns it; or it is a buffer of the
  -- list that is granted to the task.
  pub fault-Opens :
      (csr : Registers) (k k' : Kernel Dev) (i : ℕ) (t : Task)
      → k.current ≡ some i
      → get_elem? k.tasks i ≡ some t
      → store_access_fault_handler csr k ≡ done tt k'
      → Opens k t csr.mtval k'.pmp
  unfolding store_access_fault_handler top_stack
  fault-Opens csr k k' i t cur at run =
      let a = csr.mtval in
      let n = add32 k.miss 1 in
      let k1 = record k { miss = n } in
      elim (Bool-cases (in_frame_of t a)) [
        | inl own ↦
            frame (unfold in_frame_of in ground (arith, own))
              (unfold in_frame_of in ground (arith, own))
              (open_range-opens t.usp_bottom t.usp_top 2 k1 k' (ground (arith, cur, at, own, run)))
        | inr foreign ↦ elim (List-cases t.stacks) [
          | inl bare ↦ absurd (ground (arith, cur, at, foreign, bare, run))
          | inr (s, rest, e) ↦ elim (Bool-cases (overflows t s)) [
            | inl deep ↦ closes (
                task_expand_stack-ClosesOnly k1 k' tt
                  (ground (arith, cur, at, foreign, e, deep, run)))
            | inr fits ↦ Opens-miss k n t a k'.pmp (
                above_stack-Opens a i t s k1 k' cur at
                  (ground (arith, cur, at, foreign, e, fits, run)))
          ]
        ]
      ]
