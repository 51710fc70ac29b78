-- ===== src/Task/Sleep.antt =====
-- The runs of sleep and of the spinlock calls, case by case.
use sofie_os.Base.{ℕ, ◌≡◌, some, none, get_elem?, set, arith}
use sofie_os.Word.{sub32}
use sofie_os.Memory.{load32, store32}
use sofie_os.Kernel.{Task, Kernel, Cmd, done, fault, switched, update_current, ◌>>◌}
use sofie_os.Task.Flags.{set_state, sleeping}
use sofie_os.Task.Defs.{sleep, spinlock_acquire, spinlock_release, sched}

-- The task as sleep leaves it.
abbrev pub asleep : ℕ → Task → Task
asleep channel t = record t { sleep_channel = channel; state = set_state t.state sleeping }

module _ {Dev : Type 0} where
  pub spinlock_acquire_free :
      (lock : ℕ) (k : Kernel Dev)
      → load32 k.mem lock ≡ 0
      → spinlock_acquire lock k ≡ done tt (record k { mem = store32 k.mem lock 1 })
  unfolding spinlock_acquire
  spinlock_acquire_free lock k e = ground arith

  -- What sleep does when its task is picked again.
  abbrev pub wake_up : ℕ → Cmd (Kernel Dev) (Unit {0})
  wake_up lock = do update_current (λ t. record t { sleep_channel = 0 }); spinlock_acquire lock

  abbrev pub put_to_sleep : ℕ → ℕ → ℕ → Task → Kernel Dev → Kernel Dev
  put_to_sleep channel lock i t k = record k {
    mem = store32 k.mem lock 0;
    tasks = set k.tasks i (asleep channel t);
    task_count = sub32 k.task_count 1;
  }

  pub sleep_idle :
      (channel lock : ℕ) (k : Kernel Dev) → k.current ≡ none → sleep channel lock k ≡ done tt k
  unfolding sleep
  sleep_idle channel lock k e = ground arith

  pub sleep_wild :
      (channel lock i : ℕ) (k : Kernel Dev)
      → k.current ≡ some i
      → get_elem? k.tasks i ≡ none
      → sleep channel lock k ≡ fault
  unfolding sleep spinlock_release
  sleep_wild channel lock i k e n = ground arith

  pub sleep_switched :
      (channel lock i : ℕ) (t : Task) (k : Kernel Dev)
      → k.current ≡ some i
      → get_elem? k.tasks i ≡ some t
      → sleep channel lock k ≡ switched (put_to_sleep channel lock i t k) (wake_up lock)
  unfolding sleep spinlock_release sched
  sleep_switched channel lock i t k e n = ground arith

  -- Waking up where the spinlock is free.
  pub wake_up_taken :
      (lock i : ℕ) (t : Task) (k : Kernel Dev)
      → k.current ≡ some i
      → get_elem? k.tasks i ≡ some t
      → load32 k.mem lock ≡ 0
      → wake_up lock k
        ≡ done tt (record k {
          tasks = set k.tasks i (record t { sleep_channel = 0 });
          mem = store32 k.mem lock 1;
        })
  unfolding spinlock_acquire
  wake_up_taken lock i t k e n free = ground arith

  pub wake_up_wild : (lock : ℕ) (k : Kernel Dev) → k.current ≡ none → wake_up lock k ≡ fault
  wake_up_wild lock k e = ground arith

  pub wake_up_missing :
      (lock i : ℕ) (k : Kernel Dev)
      → k.current ≡ some i
      → get_elem? k.tasks i ≡ none
      → wake_up lock k ≡ fault
  wake_up_missing lock i k e n = ground arith
