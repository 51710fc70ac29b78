-- ===== src/Lock/Semaphores.antt =====
-- Tasks that wait for and post one semaphore, interleaved in any order: the states and the steps.
use sofie_os.Base.{◌≢◌, ℕ, suc, ◌+◌, ◌<◌, ◌≡◌, ◌==◌, if◌then◌else◌}
use sofie_os.Word.{word_size}
use sofie_os.Kernel.{Kernel, Cmd, done, switched}
use sofie_os.Lock.Defs.{semaphore_wait, semaphore_post}
use sofie_os.Lock.Words.{value_of, spin_of}
use sofie_os.Lock.Sleepers.{NoSleeper}
use sofie_os.Lock.Wait.{Waits}

-- Where a task stands: outside of semaphore_wait, or asleep in it with the rest of the call.
pub data Status (Dev : Type 0) : Type 0 where
  idle : Status Dev
  waiting : Cmd (Kernel Dev) (Unit {0}) → Status Dev

-- `passed` and `posted` count the calls of semaphore_wait and semaphore_post that have returned.
pub record System (Dev : Type 0) : Type 0 where
  pub kernel : Kernel Dev
  pub status : ℕ → Status Dev
  pub passed : ℕ
  pub posted : ℕ

module _ {Dev : Type 0} where
  abbrev pub move : System Dev → ℕ → Kernel Dev → Status Dev → System Dev
  move s i k x = record s { kernel = k; status = λ j. if i == j then x else s.status j }

  -- The run of a task that begins to wait, or goes on waiting.
  abbrev pub next_run : ℕ → ℕ → Status Dev → Cmd (Kernel Dev) (Unit {0})
  next_run semaphore rounds idle = semaphore_wait rounds semaphore
  next_run semaphore rounds (waiting c) = c

-- Between two steps the rest of the system may change anything but the two words of the semaphore, and
-- put no task to sleep on it.
pub record SameWords {Dev : Type 0} (semaphore : ℕ) (k0 k : Kernel Dev) : Type 0 where
  pub same_value : value_of semaphore k.mem ≡ value_of semaphore k0.mem
  pub same_spin : spin_of semaphore k.mem ≡ spin_of semaphore k0.mem
  pub same_sleepers : NoSleeper semaphore k0.tasks → NoSleeper semaphore k.tasks

pub data Step {Dev : Type 0} (semaphore : ℕ) (s : System Dev) : System Dev → Type 0 where
  passes_by :
      (i rounds : ℕ) (k k' : Kernel Dev)
      → SameWords semaphore s.kernel k
      → next_run semaphore rounds (s.status i) k ≡ done tt k'
      → Step semaphore s (record (move s i k' idle) { passed = suc s.passed })
  sleeps :
      (i rounds : ℕ) (k k' : Kernel Dev) (c : Cmd (Kernel Dev) (Unit {0}))
      → SameWords semaphore s.kernel k
      → next_run semaphore rounds (s.status i) k ≡ switched k' c
      → Step semaphore s (move s i k' (waiting c))
  -- The value is not yet the greatest that its word holds.
  posts :
      (k k' : Kernel Dev)
      → SameWords semaphore s.kernel k
      → suc (value_of semaphore k.mem) < word_size
      → semaphore_post semaphore k ≡ done tt k'
      → Step semaphore s (record s { kernel = k'; posted = suc s.posted })

-- From a state in which the semaphore is initialised and nobody uses it.
pub data Reach {Dev : Type 0} (semaphore initial : ℕ) : System Dev → Type 0 where
  start :
      (k : Kernel Dev)
      → value_of semaphore k.mem ≡ initial
      → initial < word_size
      → spin_of semaphore k.mem ≡ 0
      → NoSleeper semaphore k.tasks
      → Reach semaphore initial (record { kernel = k; status = λ _. idle; passed = 0; posted = 0 })
  later :
      {s t : System Dev}
      → Reach semaphore initial s
      → Step semaphore s t
      → Reach semaphore initial t

pub record Inv {Dev : Type 0} (semaphore initial : ℕ) (s : System Dev) : Type 0 where
  pub spin_free : spin_of semaphore s.kernel.mem ≡ 0
  pub small : value_of semaphore s.kernel.mem < word_size
  pub balance : value_of semaphore s.kernel.mem + s.passed ≡ initial + s.posted
  pub awake :
      semaphore ≢ 0 → value_of semaphore s.kernel.mem ≢ 0 → NoSleeper semaphore s.kernel.tasks
  pub sleepers :
      (i : ℕ) (c : Cmd (Kernel Dev) (Unit {0}))
      → s.status i ≡ waiting c
      → (k : Kernel Dev) → spin_of semaphore k.mem ≡ 0
      → Waits semaphore k (c k)
