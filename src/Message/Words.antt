-- ===== src/Message/Words.antt =====
-- The calls of kernel/src/lock.c that post_message and get_message make, on the lock and the semaphore of a
-- queue that no one holds.
use sofie_os.Base.{ℕ, suc, ◌+◌, ◌<◌, ◌≤◌, ◌≡◌, ◌≢◌, ◌⊎◌, ◌∙◌, arith, inl, inr}
use sofie_os.Word.{word_size, add32, sub32}
use sofie_os.Memory.{Mem, load32, store32, load32-store32, load32-store32_apart, store32-apart}
use sofie_os.Kernel.{Kernel, done}
use sofie_os.Task.{spinlock_acquire, spinlock_release, wake_all, wakeup}
use sofie_os.Lock.{
  lock_loop, sleeplock_acquire, sleeplock_release, semaphore_loop, semaphore_wait, semaphore_post,
}

-- The four words of the queue of the task at `a`: the lock and its spinlock, the semaphore and its
-- spinlock. Both spinlocks are free.
pub record QueueWords (m : Mem) (a lock value : ℕ) : Type 0 where
  pub lock_word : load32 m (a + 68) ≡ lock
  pub lock_spin : load32 m (a + 68 + 4) ≡ 0
  pub value_word : load32 m (a + 76) ≡ value
  pub value_spin : load32 m (a + 76 + 4) ≡ 0

-- Nothing but the queue's words changed.
abbrev pub Frame : ℕ → Mem → Mem → Type 0
Frame a m m' = (x : ℕ) → (x < a + 68) ⊎ (a + 84 ≤ x) → m' x ≡ m x

-- The writes of one critical section: the spinlock taken, a word written, the spinlock released.
abbrev pub section_at : ℕ → ℕ → Mem → Mem
section_at b v m = store32 (store32 (store32 m (b + 4) 1) b v) (b + 4) 0

section_at-apart : (b v x : ℕ) (m : Mem) → (x < b) ⊎ (b + 8 ≤ x) → section_at b v m x ≡ m x
section_at-apart b v x m h = ground (
  arith,
  store32-apart (store32 (store32 m (b + 4) 1) b v) (b + 4) 0 x,
  store32-apart (store32 m (b + 4) 1) b v x,
  store32-apart m (b + 4) 1 x,
)

section_at-value : (b v : ℕ) (m : Mem) → v < word_size → load32 (section_at b v m) b ≡ v
section_at-value b v m h =
    load32-store32_apart (store32 (store32 m (b + 4) 1) b v) (b + 4) 0 b (inl (omega arith))
    ∙ load32-store32 (store32 m (b + 4) 1) b v h

section_at-spin : (b v : ℕ) (m : Mem) → load32 (section_at b v m) (b + 4) ≡ 0
section_at-spin b v m = load32-store32 (store32 (store32 m (b + 4) 1) b v) (b + 4) 0 (omega arith)

pub load32-frame :
    (m m' : Mem) (x : ℕ)
    → m' x ≡ m x
    → m' (x + 1) ≡ m (x + 1)
    → m' (x + 2) ≡ m (x + 2)
    → m' (x + 3) ≡ m (x + 3)
    → load32 m' x ≡ load32 m x
unfolding load32
load32-frame m m' x e0 e1 e2 e3 = ground arith

section_at-load32 :
    (b v x : ℕ) (m : Mem) → (x + 4 ≤ b) ⊎ (b + 8 ≤ x) → load32 (section_at b v m) x ≡ load32 m x
section_at-load32 b v x m h =
    load32-frame m (section_at b v m) x (section_at-apart b v x m (ground arith))
      (section_at-apart b v (x + 1) m (ground arith))
      (section_at-apart b v (x + 2) m (ground arith))
      (section_at-apart b v (x + 3) m (ground arith))

pub lock_section :
    (a v lock value : ℕ) (m : Mem)
    → v < word_size
    → QueueWords m a lock value
    → QueueWords (section_at (a + 68) v m) a v value × Frame a m (section_at (a + 68) v m)
lock_section a v lock value m h w = (
  record {
    lock_word = section_at-value (a + 68) v m h;
    lock_spin = section_at-spin (a + 68) v m;
    value_word = section_at-load32 (a + 68) v (a + 76) m (inr (omega arith)) ∙ w.value_word;
    value_spin = section_at-load32 (a + 68) v (a + 76 + 4) m (inr (omega arith)) ∙ w.value_spin;
  },
  λ x o. section_at-apart (a + 68) v x m (ground arith),
)

pub sema_section :
    (a v lock value : ℕ) (m : Mem)
    → v < word_size
    → QueueWords m a lock value
    → QueueWords (section_at (a + 76) v m) a lock v × Frame a m (section_at (a + 76) v m)
sema_section a v lock value m h w = (
  record {
    lock_word = section_at-load32 (a + 76) v (a + 68) m (inl (omega arith)) ∙ w.lock_word;
    lock_spin = section_at-load32 (a + 76) v (a + 68 + 4) m (inl (omega arith)) ∙ w.lock_spin;
    value_word = section_at-value (a + 76) v m h;
    value_spin = section_at-spin (a + 76) v m;
  },
  λ x o. section_at-apart (a + 76) v x m (ground arith),
)

module _ {Dev : Type 0} where
  -- The state after the waiters of a channel are woken, with other memory.
  abbrev pub woken : ℕ → Mem → Kernel Dev → Kernel Dev
  woken channel m k = record k {
    mem = m;
    tasks = (wake_all channel k.tasks k.task_count).0;
    task_count = (wake_all channel k.tasks k.task_count).1;
  }

  pub sleeplock_acquire_free :
      (rounds b : ℕ) (k : Kernel Dev)
      → load32 k.mem b ≡ 0
      → load32 k.mem (b + 4) ≡ 0
      → sleeplock_acquire (suc rounds) b k ≡ done tt (record k { mem = section_at b 1 k.mem })
  unfolding sleeplock_acquire lock_loop spinlock_release spinlock_acquire
  sleeplock_acquire_free rounds b k free spin =
      ground (arith, load32-store32_apart k.mem (b + 4) 1 b (inl (omega arith)))

  pub sleeplock_release_free :
      (b : ℕ) (k : Kernel Dev)
      → load32 k.mem (b + 4) ≡ 0
      → sleeplock_release b k ≡ done tt (woken b (section_at b 0 k.mem) k)
  unfolding sleeplock_release spinlock_release spinlock_acquire wakeup
  sleeplock_release_free b k spin = ground arith

  pub semaphore_post_free :
      (b v : ℕ) (k : Kernel Dev)
      → load32 k.mem b ≡ v
      → load32 k.mem (b + 4) ≡ 0
      → semaphore_post b k ≡ done tt (woken b (section_at b (add32 v 1) k.mem) k)
  unfolding semaphore_post spinlock_release spinlock_acquire wakeup
  semaphore_post_free b v k e spin =
      ground (arith, load32-store32_apart k.mem (b + 4) 1 b (inl (omega arith)))

  pub semaphore_wait_free :
      (rounds b v : ℕ) (k : Kernel Dev)
      → load32 k.mem b ≡ v
      → v ≢ 0
      → load32 k.mem (b + 4) ≡ 0
      → semaphore_wait (suc rounds) b k
        ≡ done tt (record k { mem = section_at b (sub32 v 1) k.mem })
  unfolding semaphore_wait semaphore_loop spinlock_release spinlock_acquire
  semaphore_wait_free rounds b v k e positive spin =
      ground (arith, load32-store32_apart k.mem (b + 4) 1 b (inl (omega arith)))
