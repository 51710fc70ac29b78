-- ===== src/Stack/Defs.antt =====
-- task_expand_stack and task_shrink_stack.
use sofie_os.Base.{
  ℕ, zero, suc, ◌+◌, ◌-◌, ◌*◌, ◌/◌, ◌&&◌, Option, none, some, List, [], ◌∷◌, ◌==◌, leb, ltb,
  if◌then◌else◌,
}
use sofie_os.Word.{add32, sub32}
use sofie_os.Memory.{Mem, store8}
use sofie_os.Metal.{Metal}
use sofie_os.Pmp.{clear_buffer_access}
use sofie_os.Kernel.{
  BufferEntry, Stack, Task, Kernel, Cmd, done, panic, fault, hung, ◌>>=◌, ◌>>◌, get, modify, malloc,
  current_task, update_current,
}
use sofie_os.Buffer.{remove_buffer_entry}
use sofie_os.Task.{set_just_allocated, is_just_allocated}
use sofie_os.Task.Create.{user_stack_size}

-- Byte by byte from the top: `n` bytes ending at `src` go to those ending at `dst`.
unfoldable pub copy_down : ℕ → ℕ → ℕ → Mem → Mem
copy_down zero src dst m = m
copy_down (suc n) src dst m = copy_down n (sub32 src 1) (sub32 dst 1) (store8 m dst (m src))

abbrev first_of : {A : Type 0} → List A → Option A
first_of [] = none
first_of (a ∷ rest) = some a

module _ {Dev : Type 0} where
  -- `while (src >= stop) { *dst = *src; --src; --dst; }`, which never ends at stop 0. It returns the
  -- last `dst`.
  unfoldable pub copy_bytes : ℕ → ℕ → ℕ → Cmd (Kernel Dev) ℕ
  copy_bytes src dst stop k =
      let n = src + 1 - stop in
      if stop == 0
      then hung k
      else done (sub32 dst n) (record k { mem = copy_down n src dst k.mem })

  -- `task->stacks->...`
  unfoldable pub top_stack : Task → Cmd (Kernel Dev) Stack
  top_stack t k = elim (first_of t.stacks) [ none ↦ fault | some s ↦ done s k ]

abbrev rest_of : {A : Type 0} → List A → List A
rest_of [] = []
rest_of (a ∷ rest) = rest

abbrev on_top : (Stack → Stack) → List Stack → List Stack
on_top f [] = []
on_top f (s ∷ rest) = f s ∷ rest

module _ {Dev : Type 0} where
  unfoldable pub update_top : (Stack → Stack) → Cmd (Kernel Dev) (Unit {0})
  update_top f = update_current (λ t. record t { stacks = on_top f t.stacks })

unfoldable pub frame_size : Task → ℕ
frame_size t = sub32 t.trapframe.fp t.trapframe.sp

-- The stack size that holds a frame with room to spare: the next multiple of USER_STACK_SIZE above it.
unfoldable pub new_length : ℕ → ℕ
new_length frame =
    let allocated = add32 frame (user_stack_size - 1) / user_stack_size * user_stack_size in
    if frame == allocated then add32 allocated user_stack_size else allocated

module _ {Dev : Type 0} ⦃metal : Metal Dev⦄ where
  unfoldable pub task_expand_stack : Cmd (Kernel Dev) (Unit {0})
  task_expand_stack = do
    t ← current_task
    let frame = frame_size t
    let allocated = new_length frame
    new_stack ← malloc
    if new_stack == 0 then panic else do
      node ← malloc
      if node == 0 then (λ _. fault) else do
        old ← top_stack t
        let stack : Stack = record {
          length = allocated;
          fp = t.trapframe.fp;
          sp = t.trapframe.sp;
          extra = 0;
          p_sp = t.usp_top;
          bottom = new_stack;
        }
        let new_fp = add32 new_stack allocated
        last ← copy_bytes (sub32 t.trapframe.fp 1) (sub32 new_fp 1) old.bottom
        update_current (λ u. record u {
          trapframe = record u.trapframe { fp = new_fp; sp = sub32 new_fp frame };
          stacks = stack ∷ u.stacks;
          usp_bottom = new_stack;
          usp_top = new_fp;
          state = set_just_allocated u.state 1;
        })
        modify (λ k. record k { pmp = clear_buffer_access new_fp k.pmp })

-- The first loop of task_shrink_stack: the entries from `lo` on go, and the loop stops at the first
-- entry at `hi` or above.
unfoldable pub drop_between : ℕ → ℕ → List BufferEntry → List BufferEntry
drop_between lo hi [] = []
drop_between lo hi (p ∷ rest) =
    let later = drop_between lo hi rest in
    if ltb p.address hi then (if leb lo p.address then later else p ∷ later) else p ∷ rest

-- The loop that looks for a task's lowest closed frame: the first entry from `lo` to below `hi`, and 0
-- if there is none.
unfoldable pub first_between : ℕ → ℕ → List BufferEntry → ℕ
first_between lo hi [] = 0
first_between lo hi (p ∷ rest) =
    let later = first_between lo hi rest in
    if leb lo p.address && ltb p.address hi then p.address else later

module _ {Dev : Type 0} ⦃metal : Metal Dev⦄ where
  unfoldable pub task_shrink_stack : Cmd (Kernel Dev) (Unit {0})
  task_shrink_stack = do
    t ← current_task
    top ← top_stack t
    update_current
        (λ u. record u { trapframe = record u.trapframe { sp = sub32 top.fp top.extra } })
    modify (λ k. record k {
      buffers = drop_between top.bottom (add32 top.bottom top.length) k.buffers;
    })
    update_current (λ u. record u { stacks = rest_of u.stacks })
    update_current (λ u. record u {
      state = if is_just_allocated u.state then set_just_allocated u.state 0 else u.state;
    })
    u ← current_task
    below ← top_stack u
    update_current (λ v. record v { usp_bottom = below.bottom })
    if u.usp_top == 0
        then (do
          remove_buffer_entry u.trapframe.sp
          k ← get
          let end = add32 below.bottom below.length
          let found = first_between below.bottom end k.buffers
          update_current (λ v. record v {
            usp_bottom = below.bottom;
            usp_top = if found == 0 then end else found;
          }))
        else update_current (λ v. record v { usp_top = v.trapframe.sp })
