-- ===== src/Syscall.antt =====
-- kernel/src/callimpl.c and syscall of kernel/src/trap.c: the system calls and their table. vprintf and
-- rand of the C library are parameters, and what is printed otherwise is left out.
pub mod Calls
pub mod Heap
mod Tests
use sofie_os.Base.{
  ℕ, zero, suc, ◌+◌, Bool, Option, none, some, List, [], ◌∷◌, ◌==◌, ◌&&◌, ltb, if◌then◌else◌,
  get_elem?, length,
}
use sofie_os.Word.{add32, sub32}
use sofie_os.Memory.{Mem, store8}
use sofie_os.Bytes.{copy_up}
use sofie_os.Metal.{Metal}
use sofie_os.Pmp.{dump_pmp}
use sofie_os.Kernel.{
  Task, Kernel, Cmd, panic, fault, ◌>>=◌, ◌>>◌, get, modify, lift_pmp, pure, current_task, task_at,
  update_task,
}
use sofie_os.Task.Create.{create_task}
use sofie_os.Lock.{sleeplock_acquire, sleeplock_release, semaphore_wait, semaphore_post}
use sofie_os.Umalloc.{header_size, minus_one, allocate_memory, free_memory, get_owner, change_owner}
use sofie_os.Stack.{top_stack, sys_set_protected_stack_top, sys_restore_protected_stack_top}
use sofie_os.Message.{get_message, post_message}

-- vprintf and rand of the C library.
pub record Libc (Dev : Type 0) : Type 0 where
  pub vprintf : ℕ → ℕ → Cmd (Kernel Dev) ℕ
  pub rand : Cmd (Kernel Dev) ℕ

-- The argument register of a number, and `none` where argraw panics.
abbrev arg_of : ℕ → Task → Option ℕ
arg_of zero t = some t.trapframe.a0
arg_of (suc zero) t = some t.trapframe.a1
arg_of (suc (suc zero)) t = some t.trapframe.a2
arg_of (suc (suc (suc zero))) t = some t.trapframe.a3
arg_of (suc (suc (suc (suc zero)))) t = some t.trapframe.a4
arg_of (suc (suc (suc (suc (suc zero))))) t = some t.trapframe.a5
arg_of (suc (suc (suc (suc (suc (suc n)))))) t = none

module _ {Dev : Type 0} where
  unfoldable pub argraw : ℕ → Cmd (Kernel Dev) ℕ
  argraw n = do t ← current_task; elim (arg_of n t) [ none ↦ panic | some v ↦ pure v ]

  -- argint, arguint32 and argaddr store what argraw returns; their own results are not read.
  abbrev argint : ℕ → Cmd (Kernel Dev) ℕ
  argint n = argraw n

  abbrev arguint32 : ℕ → Cmd (Kernel Dev) ℕ
  arguint32 n = argraw n

  unfoldable pub sys_get_message : ℕ → Cmd (Kernel Dev) ℕ
  sys_get_message rounds = do t ← current_task; get_message rounds t.tid

  unfoldable pub sys_new_task : Cmd (Kernel Dev) ℕ
  sys_new_task = do entry ← arguint32 0; create_task entry

  unfoldable pub sys_acquire_sleep_lock : ℕ → Cmd (Kernel Dev) ℕ
  sys_acquire_sleep_lock rounds = do address ← arguint32 0; sleeplock_acquire rounds address; pure 0

  unfoldable pub sys_release_sleep_lock : Cmd (Kernel Dev) ℕ
  sys_release_sleep_lock = do address ← arguint32 0; sleeplock_release address; pure 0

  unfoldable pub sys_wait_semaphore : ℕ → Cmd (Kernel Dev) ℕ
  sys_wait_semaphore rounds = do address ← arguint32 0; semaphore_wait rounds address; pure 0

  unfoldable pub sys_post_semaphore : Cmd (Kernel Dev) ℕ
  sys_post_semaphore = do address ← arguint32 0; semaphore_post address; pure 0

  unfoldable pub sys_memcpy : Cmd (Kernel Dev) ℕ
  sys_memcpy = do
    dst ← arguint32 0
    src ← arguint32 1
    size ← arguint32 2
    modify (λ k. record k { mem = copy_up size dst src k.mem })
    pure dst

  -- An argument list above the current stack lies in the previous one.
  unfoldable pub sys_printf : Libc Dev → Cmd (Kernel Dev) ℕ
  sys_printf libc = do
    format ← arguint32 0
    arglist ← arguint32 1
    t ← current_task
    s ← top_stack t
    let end = add32 s.bottom s.length
    libc.vprintf format (if ltb end arglist then add32 s.fp (sub32 arglist end) else arglist)

  abbrev sys_rand : Libc Dev → Cmd (Kernel Dev) ℕ
  sys_rand libc = libc.rand

module _ {Dev : Type 0} ⦃metal : Metal Dev⦄ where
  -- `for (i = 0; i < 8; i++) dump_pmp(i);`, for the `n` regions from `i` on.
  unfoldable pub dump_from : ℕ → ℕ → Cmd (Kernel Dev) (Unit {0})
  dump_from zero i = pure tt
  dump_from (suc n) i = do lift_pmp (dump_pmp i); dump_from n (i + 1)

  unfoldable pub sys_dump_pmp : Cmd (Kernel Dev) ℕ
  sys_dump_pmp = do dump_from 8 0; pure 0

  unfoldable pub sys_malloc : Cmd (Kernel Dev) ℕ
  sys_malloc = do size_expected ← arguint32 0; allocate_memory (add32 size_expected header_size)

  unfoldable pub sys_free : Cmd (Kernel Dev) ℕ
  sys_free = do address ← arguint32 0; free_memory address; pure 0

  unfoldable pub sys_change_owner : Cmd (Kernel Dev) ℕ
  sys_change_owner = do
    address ← arguint32 0
    tid ← argint 1
    owner ← get_owner address
    t ← current_task
    if owner == t.tid then (do change_owner address tid; pure 0) else pure minus_one

  unfoldable pub sys_post_message : ℕ → Cmd (Kernel Dev) ℕ
  sys_post_message rounds = do
    tid ← argint 0
    message ← arguint32 1
    post_message rounds tid message
    pure 0

  -- The table of trap.c. It has nothing at 0.
  abbrev pub syscalls : Libc Dev → ℕ → List (Option (Cmd (Kernel Dev) ℕ))
  syscalls libc rounds =
      none
      ∷ some sys_dump_pmp
      ∷ some sys_set_protected_stack_top
      ∷ some sys_restore_protected_stack_top
      ∷ some sys_malloc
      ∷ some sys_free
      ∷ some sys_change_owner
      ∷ some sys_new_task
      ∷ some (sys_post_message rounds)
      ∷ some (sys_get_message rounds)
      ∷ some (sys_acquire_sleep_lock rounds)
      ∷ some sys_release_sleep_lock
      ∷ some (sys_wait_semaphore rounds)
      ∷ some sys_post_semaphore
      ∷ some (sys_printf libc)
      ∷ some sys_memcpy
      ∷ some (sys_rand libc)
      ∷ []

  -- `syscalls[num]`, none for NULL. What lies behind the table is no function: a call of it faults.
  unfoldable pub table_entry : Libc Dev → ℕ → ℕ → Option (Cmd (Kernel Dev) ℕ)
  table_entry libc rounds num = elim (get_elem? (syscalls libc rounds) num) [
    | none ↦ some (λ _. fault)
    | some entry ↦ entry
  ]

  -- `num > 0 && num < NELEM(syscalls) && syscalls[num]`, and then `syscalls[num]`.
  unfoldable pub find_syscall : Libc Dev → ℕ → ℕ → Option (Cmd (Kernel Dev) ℕ)
  find_syscall libc rounds num =
      if ltb 0 num && ltb num (length (syscalls libc rounds))
      then table_entry libc rounds num
      else none

  -- The result goes to a0 of the task that made the call.
  unfoldable pub syscall : Libc Dev → ℕ → Cmd (Kernel Dev) (Unit {0})
  syscall libc rounds = do
    k ← get
    elim k.current [
      | none ↦ (λ _. fault)
      | some i ↦ do
        t ← task_at i
        result ← elim (find_syscall libc rounds t.trapframe.a7) [
          | none ↦ pure minus_one
          | some call ↦ call
        ]
        update_task i (λ u. record u { trapframe = record u.trapframe { a0 = result } })
    ]
