-- ===== src/User/Locks.antt =====
-- A task in user mode that asks for a sleep lock which is taken.
use sofie_os.Base.{
  ℕ, zero, suc, ◌≤◌, List, [], ◌∷◌, ◌++◌, length, All, ◌≡◌, ◌≢◌, ◌∙◌, refl, ap, some, get_elem?,
  get_elem?-lt, get_elem?-set_self, set, set-set, arith,
}
use sofie_os.Metal.{Metal}
use sofie_os.Kernel.{Task, TrapFrame, Kernel, Cmd, Run, done, switched, and_then, pure}
use sofie_os.Syscall.{Libc, sys_acquire_sleep_lock, argraw}
use sofie_os.Lock.Words.{value_of, spin_of}
use sofie_os.Lock.Runs.{
  taken_mem, taken_mem_lem, resumed, asleep_on, acquire-sleeps, resumed-gets, resumed-sleeps,
}
use sofie_os.Trap.Defs.{priv_user}
use sofie_os.User.Defs.{Hart, ecall}
use sofie_os.User.Calls.{
  called, called_task, given, answer, ecall-run, answer-run, find_syscall_numbers,
}
use sofie_os.User.Sys

-- The stub of sofie_acquire_mutex puts the address of the lock into a0.
abbrev pub lock_args : ℕ → TrapFrame → TrapFrame
lock_args lock f = record f { a0 = lock }

-- A run that sleeps is taken up in the states in which its task is picked, one after the other.
unfoldable pub picked :
    {Dev : Type 0} {A : Type 0} → Run (Kernel Dev) A → List (Kernel Dev) → Run (Kernel Dev) A
picked r [] = r
picked (switched k c) (s ∷ l) = picked (c s) l
picked r (s ∷ l) = r

-- A state in which the task at `i` is picked, while the lock is taken.
pub record IsVain {Dev : Type 0} (lock i : ℕ) (k : Kernel Dev) : Type 0 where
  pub task : Task
  pub current : k.current ≡ some i
  pub here : get_elem? k.tasks i ≡ some task
  pub spin : spin_of lock k.mem ≡ 0
  pub held : value_of lock k.mem ≢ 0

module _ {Dev : Type 0} ⦃metal : Metal Dev⦄ (libc : Libc Dev) (rounds : ℕ) (hart : Hart Dev)
    (lock i : ℕ) where
  -- What is left of the call while the task sleeps with `n` rounds left.
  abbrev pub rest_of_call : ℕ → Cmd (Kernel Dev) ℕ
  rest_of_call n s =
      and_then (and_then (resumed lock n s) (λ _. pure 0)) (answer libc rounds hart i)

  call-sleeps :
      (n : ℕ) (t : Task) (k : Kernel Dev)
      → k.current ≡ some i
      → get_elem? k.tasks i ≡ some t
      → t.trapframe.a0 ≡ lock
      → spin_of lock k.mem ≡ 0
      → value_of lock k.mem ≢ 0
      → sys_acquire_sleep_lock (suc n) k
        ≡ switched (asleep_on lock i t k) (λ s. and_then (resumed lock n s) (λ _. pure 0))
  unfolding sys_acquire_sleep_lock argraw
  call-sleeps n t k current task arg spin held =
      ground (arith, current, task, arg, acquire-sleeps lock n i t k current task spin held)

  rest-returns :
      (n : ℕ) (u : Task) (k : Kernel Dev)
      → k.current ≡ some i
      → get_elem? k.tasks i ≡ some u
      → spin_of lock k.mem ≡ 0
      → value_of lock k.mem ≡ 0
      → rest_of_call (suc n) k
        ≡ done 0 (record k {
          privileges = priv_user;
          mem = taken_mem lock k.mem;
          tasks = set k.tasks i (given 0 (record u { sleep_channel = 0 }));
        })
  rest-returns n u k current task spin free =
      let v = record u { sleep_channel = 0 } in
      let k1 = record k { tasks = set k.tasks i v; mem = taken_mem lock k.mem } in
      let at = get_elem?-set_self k.tasks i v (get_elem?-lt k.tasks i u task) in
      ap (λ r. and_then (and_then r (λ _. pure 0)) (answer libc rounds hart i))
        (resumed-gets lock n i u k current task spin free)
      ∙ answer-run libc rounds hart i 0 v k1 current at
      ∙ rw (set-set k.tasks i v (given 0 v)) refl

  rest-sleeps :
      (n : ℕ) (u : Task) (k : Kernel Dev)
      → k.current ≡ some i
      → get_elem? k.tasks i ≡ some u
      → spin_of lock k.mem ≡ 0
      → value_of lock k.mem ≢ 0
      → rest_of_call (suc n) k
        ≡ switched
            (asleep_on lock i
              (record u { sleep_channel = 0 })
              (record k { tasks = set k.tasks i (record u { sleep_channel = 0 }) }))
            (rest_of_call n)
  rest-sleeps n u k current task spin held =
      ap (λ r. and_then (and_then r (λ _. pure 0)) (answer libc rounds hart i))
        (resumed-sleeps lock n i u k current task spin held)

  module _ (u : Task) (k' : Kernel Dev) (current : k'.current ≡ some i)
      (task : get_elem? k'.tasks i ≡ some u) (spin : spin_of lock k'.mem ≡ 0)
      (free : value_of lock k'.mem ≡ 0) where
    -- The state when the stub returns to user mode with the lock.
    abbrev pub locked : Kernel Dev
    locked = record k' {
      privileges = priv_user;
      mem = taken_mem lock k'.mem;
      tasks = set k'.tasks i (given 0 (record u { sleep_channel = 0 }));
    }

    rest-picked :
        (n : ℕ) (k0 : Kernel Dev) (ks : List (Kernel Dev))
        → All (IsVain lock i) ks
        → length ks ≤ n
        → picked (switched k0 (rest_of_call (suc n))) (ks ++ k' ∷ []) ≡ done 0 locked
    unfolding picked
    rest-picked n k0 [] vain enough = rw (rest-returns n u k' current task spin free) refl
    rest-picked zero k0 (s ∷ ks) vain enough = absurd (ground arith)
    rest-picked (suc n) k0 (s ∷ ks) (v, vain) enough =
        ap (λ r. picked r (ks ++ k' ∷ []))
          (rest-sleeps (suc n) v.task s v.current v.here v.spin v.held)
        ∙ rest-picked n _ ks vain (omega arith)

module _ {Dev : Type 0} ⦃metal : Metal Dev⦄ (libc : Libc Dev) (hart : Hart Dev) where
  -- The system call of sofie_acquire_mutex, on a lock that is taken and whose spinlock is free, with `n
  -- + 2` rounds: the task goes to sleep on the lock. It may be picked at most `n` times while the lock
  -- is taken, and each time it sleeps again. When it is then picked in a state in which the lock and
  -- its spinlock are free, the call returns 0 in user mode, with 0 in the task's a0, the lock's value
  -- 1, its spinlock free and the task off its sleep channel; the rest of that state stays.
  pub acquire-waits :
      (n lock i : ℕ) (t u : Task) (k k' : Kernel Dev) (ks : List (Kernel Dev))
      → k.current ≡ some i
      → get_elem? k.tasks i ≡ some t
      → spin_of lock k.mem ≡ 0
      → value_of lock k.mem ≢ 0
      → All (IsVain lock i) ks
      → length ks ≤ n
      → k'.current ≡ some i
      → get_elem? k'.tasks i ≡ some u
      → spin_of lock k'.mem ≡ 0
      → value_of lock k'.mem ≡ 0
      → let call = ecall libc (suc (suc n)) hart Sys.acquire_sleep_lock (lock_args lock) k in
        let t' = called_task hart Sys.acquire_sleep_lock (lock_args lock) k t in
        let k1 = called hart Sys.acquire_sleep_lock (lock_args lock) i k t in
        (rest : Cmd (Kernel Dev) ℕ) × (call ≡ switched (asleep_on lock i t' k1) rest)
        × (picked call (ks ++ k' ∷ [])
            ≡ done 0 (record k' {
              privileges = priv_user;
              mem = taken_mem lock k'.mem;
              tasks = set k'.tasks i (given 0 (record u { sleep_channel = 0 }));
            }))
        × (value_of lock (taken_mem lock k'.mem) ≡ 1)
        × (spin_of lock (taken_mem lock k'.mem) ≡ 0)
  acquire-waits n lock i t u k k' ks current task spin held vain enough current' task' spin' free =
      let rounds = suc (suc n) in
      let t' = called_task hart Sys.acquire_sleep_lock (lock_args lock) k t in
      let k1 = called hart Sys.acquire_sleep_lock (lock_args lock) i k t in
      let at = get_elem?-set_self k.tasks i t' (get_elem?-lt k.tasks i t task) in
      let run : ecall libc rounds hart Sys.acquire_sleep_lock (lock_args lock) k
          ≡ switched (asleep_on lock i t' k1) (rest_of_call libc rounds hart lock i (suc n)) =
        ecall-run libc rounds hart Sys.acquire_sleep_lock (lock_args lock)
          (sys_acquire_sleep_lock rounds) i t k current task (find_syscall_numbers libc rounds).9
        ∙ ap (λ r. and_then r (answer libc rounds hart i))
            (call-sleeps libc rounds hart lock i (suc n) t' k1 current at refl spin held) in
      (
        rest_of_call libc rounds hart lock i (suc n),
        run,
        rw run
            (rest-picked libc rounds hart lock i u k' current' task' spin' free n _ ks vain enough),
        (taken_mem_lem lock k'.mem).0,
        (taken_mem_lem lock k'.mem).1,
      )
