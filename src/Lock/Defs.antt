-- ===== src/Lock/Defs.antt =====
-- The functions of kernel/src/lock.c that may sleep or wake.
use sofie_os.Base.{ℕ, zero, suc, ◌+◌, ◌==◌, if◌then◌else◌}
use sofie_os.Word.{add32, sub32}
use sofie_os.Kernel.{Kernel, Cmd, starved, ◌>>=◌, ◌>>◌, pure, read_word, write_word}
use sofie_os.Task.{spinlock_acquire, spinlock_release, sleep, wakeup}

module _ {Dev : Type 0} where
  -- `while (lock->locked) sleep(lock, &lock->spinlock);`
  unfoldable pub lock_loop : ℕ → ℕ → Cmd (Kernel Dev) (Unit {0})
  lock_loop zero lock = starved
  lock_loop (suc rounds) lock =
      let again = lock_loop rounds lock in
      do locked ← read_word lock; if locked == 0 then pure tt else do sleep lock (lock + 4); again

  unfoldable pub sleeplock_acquire : ℕ → ℕ → Cmd (Kernel Dev) (Unit {0})
  sleeplock_acquire rounds lock = do
    spinlock_acquire (lock + 4)
    lock_loop rounds lock
    write_word lock 1
    spinlock_release (lock + 4)

  unfoldable pub sleeplock_release : ℕ → Cmd (Kernel Dev) (Unit {0})
  sleeplock_release lock = do
    spinlock_acquire (lock + 4)
    write_word lock 0
    wakeup lock
    spinlock_release (lock + 4)

  -- `while (semaphore->value == 0) sleep(semaphore, &semaphore->spinlock);`
  unfoldable pub semaphore_loop : ℕ → ℕ → Cmd (Kernel Dev) (Unit {0})
  semaphore_loop zero semaphore = starved
  semaphore_loop (suc rounds) semaphore =
      let again = semaphore_loop rounds semaphore in
      do
        value ← read_word semaphore
        if value == 0 then (do sleep semaphore (semaphore + 4); again) else pure tt

  unfoldable pub semaphore_wait : ℕ → ℕ → Cmd (Kernel Dev) (Unit {0})
  semaphore_wait rounds semaphore = do
    spinlock_acquire (semaphore + 4)
    semaphore_loop rounds semaphore
    value ← read_word semaphore
    write_word semaphore (sub32 value 1)
    spinlock_release (semaphore + 4)

  unfoldable pub semaphore_post : ℕ → Cmd (Kernel Dev) (Unit {0})
  semaphore_post semaphore = do
    spinlock_acquire (semaphore + 4)
    value ← read_word semaphore
    write_word semaphore (add32 value 1)
    wakeup semaphore
    spinlock_release (semaphore + 4)
