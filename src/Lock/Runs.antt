-- ===== src/Lock/Runs.antt =====
-- sleeplock_acquire of kernel/src/lock.c, run by run: to its sleep, and on from there.
use sofie_os.Base.{
  ℕ, suc, ◌+◌, ◌≡◌, ◌≢◌, ◌∙◌, some, get_elem?, get_elem?-lt, get_elem?-set_self, set, arith,
}
use sofie_os.Memory.{Mem, store32}
use sofie_os.Kernel.{Task, Kernel, Cmd, done, switched, and_then, ◌>>◌, write_word}
use sofie_os.Task.{spinlock_release}
use sofie_os.Task.Sleep.{
  wake_up, put_to_sleep, sleep_switched, wake_up_taken, spinlock_acquire_free,
}
use sofie_os.Lock.Defs.{lock_loop, sleeplock_acquire}
use sofie_os.Lock.Words.{value_of, spin_of, value-write_value, value-write_spin, spin-write_spin}

-- Memory when a task has got the lock.
abbrev pub taken_mem : ℕ → Mem → Mem
taken_mem lock m = store32 (store32 (store32 m (lock + 4) 1) lock 1) (lock + 4) 0

pub taken_mem_lem :
    (lock : ℕ) (m : Mem)
    → (value_of lock (taken_mem lock m) ≡ 1) × (spin_of lock (taken_mem lock m) ≡ 0)
taken_mem_lem lock m =
    let m1 = store32 m (lock + 4) 1 in
    let m2 = store32 m1 lock 1 in
    (
      value-write_spin lock m2 0 ∙ value-write_value lock m1 1 (omega arith),
      spin-write_spin lock m2 0 (omega arith),
    )

module _ {Dev : Type 0} (lock : ℕ) where
  -- A call of sleeplock_acquire that sleeps with `rounds` rounds left goes on so.
  abbrev pub resumed : ℕ → Cmd (Kernel Dev) (Unit {0})
  resumed rounds k =
      and_then (and_then (wake_up (lock + 4) k) (λ _. lock_loop rounds lock))
        (λ _. do write_word lock 1; spinlock_release (lock + 4))

  -- The state in which others run meanwhile.
  abbrev pub asleep_on : ℕ → Task → Kernel Dev → Kernel Dev
  asleep_on i t k = put_to_sleep lock (lock + 4) i t (record k { mem = store32 k.mem (lock + 4) 1 })

  module _ (rounds i : ℕ) (t : Task) (k : Kernel Dev) (current : k.current ≡ some i)
      (task : get_elem? k.tasks i ≡ some t) (spin : spin_of lock k.mem ≡ 0) where
    pub acquire-sleeps :
        value_of lock k.mem ≢ 0
        → sleeplock_acquire (suc rounds) lock k ≡ switched (asleep_on i t k) (resumed rounds)
    unfolding sleeplock_acquire lock_loop
    acquire-sleeps held =
        let k1 = record k { mem = store32 k.mem (lock + 4) 1 } in
        ground (
          arith,
          spinlock_acquire_free (lock + 4) k spin,
          value-write_spin lock k.mem 1,
          held,
          sleep_switched lock (lock + 4) i t k1 current task,
        )

    -- The task as it goes on.
    abbrev pub roused : Task
    roused = record t { sleep_channel = 0 }

    pub resumed-gets :
        value_of lock k.mem ≡ 0
        → resumed (suc rounds) k
          ≡ done tt (record k { tasks = set k.tasks i roused; mem = taken_mem lock k.mem })
    unfolding lock_loop spinlock_release
    resumed-gets free = ground (
      arith,
      wake_up_taken (lock + 4) i t k current task spin,
      value-write_spin lock k.mem 1,
      free,
    )

    -- Woken in vain, it sleeps again.
    pub resumed-sleeps :
        value_of lock k.mem ≢ 0
        → let k1 = record k { tasks = set k.tasks i roused } in
          resumed (suc rounds) k ≡ switched (asleep_on i roused k1) (resumed rounds)
    unfolding lock_loop
    resumed-sleeps held =
        let k1 = record k { tasks = set k.tasks i roused; mem = store32 k.mem (lock + 4) 1 } in
        ground (
          arith,
          wake_up_taken (lock + 4) i t k current task spin,
          value-write_spin lock k.mem 1,
          held,
          sleep_switched lock (lock + 4) i roused k1 current
              (get_elem?-set_self k.tasks i roused (get_elem?-lt k.tasks i t task)),
        )
