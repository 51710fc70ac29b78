-- ===== src/Task/Defs.antt =====
-- Spinlocks, sleep, wakeup and the yield of kernel/src/task.c and kernel/src/lock.c. The kernel runs with
-- interrupts off on one hart: a spinlock that is taken is never released while another waits for it.
use sofie_os.Base.{ℕ, Bool, ◌&&◌, ◌||◌, none, some, List, [], ◌∷◌, ◌==◌, leb, if◌then◌else◌}
use sofie_os.Word.{add32, sub32}
use sofie_os.Pmp.{log_pmp_settings}
use sofie_os.Metal.{Metal}
use sofie_os.Kernel.{
  Task, Kernel, Cmd, done, hung, switched, ◌>>=◌, ◌>>◌, get, modify, pure, read_word, write_word,
  update_current,
}
use sofie_os.Task.Flags.{is_sleeping, set_state, runnable, sleeping}

module _ {Dev : Type 0} where
  -- `while (__sync_lock_test_and_set(&lock->locked, 1) != 0);`
  unfoldable pub spinlock_acquire : ℕ → Cmd (Kernel Dev) (Unit {0})
  spinlock_acquire lock = do
    locked ← read_word lock
    write_word lock 1
    if locked == 0 then pure tt else hung

  unfoldable pub spinlock_release : ℕ → Cmd (Kernel Dev) (Unit {0})
  spinlock_release lock = write_word lock 0

  -- swtch to the scheduler, and back when it picks this task again
  unfoldable pub sched : Cmd (Kernel Dev) (Unit {0})
  sched k = switched k (done tt)

  unfoldable pub sleep : ℕ → ℕ → Cmd (Kernel Dev) (Unit {0})
  sleep channel lock = do
    k ← get
    elim k.current [
      | none ↦ pure tt
      | some i ↦ do
        spinlock_release lock
        update_current
            (λ t. record t { sleep_channel = channel; state = set_state t.state sleeping })
        modify (λ s. record s { task_count = sub32 s.task_count 1 })
        sched
        update_current (λ t. record t { sleep_channel = 0 })
        spinlock_acquire lock
    ]

-- The test of the loop of wakeup.
abbrev pub wakes : ℕ → Task → Bool
wakes channel t = is_sleeping t.state && t.sleep_channel == channel

-- The loop of wakeup: the tasks, and how many it made runnable.
unfoldable pub wake : ℕ → Task → Task
wake channel t = if wakes channel t then record t { state = set_state t.state runnable } else t

unfoldable pub wake_all : ℕ → List Task → ℕ → List Task × ℕ
wake_all channel [] count = ([], count)
wake_all channel (t ∷ rest) count =
    let (rest', count') =
      wake_all channel rest (if wakes channel t then add32 count 1 else count) in
    (wake channel t ∷ rest', count')

module _ {Dev : Type 0} where
  unfoldable pub wakeup : ℕ → Cmd (Kernel Dev) (Unit {0})
  wakeup channel k =
      let (tasks, count) = wake_all channel k.tasks k.task_count in
      done tt (record k { tasks = tasks; task_count = count })

-- `x <= 1` for the 32 bits of an int
abbrev pub int_le_one : ℕ → Bool
int_le_one x = leb x 1 || leb 0x80000000 x

module _ {Dev : Type 0} ⦃metal : Metal Dev⦄ where
  unfoldable pub task_yield : Cmd (Kernel Dev) (Unit {0})
  task_yield = do
    k ← get
    if int_le_one k.task_count then pure tt else do
      update_current (λ t. record t { state = set_state t.state runnable })
      update_current (λ t. record t { pmp = log_pmp_settings k.pmp t.pmp })
      sched
