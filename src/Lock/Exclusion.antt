-- ===== src/Lock/Exclusion.antt =====
-- Tasks that take one sleep lock and release it when they hold it, interleaved in any order. The code does
-- not check that the caller of sleeplock_release holds the lock: that is up to the tasks.
use sofie_os.Base.{
  ℕ, ◌+◌, ◌≡◌, ◌≢◌, refl, sym, subst, ◌∙◌, Bool, true, false, arith, ◌==◌, if◌then◌else◌,
  Bool-cases, inl, inr, some, get_elem?, All-get_elem?,
}
use sofie_os.Memory.{store32}
use sofie_os.Kernel.{Task, Kernel, Cmd, done, fault, switched}
use sofie_os.Task.{spinlock_acquire, spinlock_release, wakeup, wakes, wake_all}
use sofie_os.Lock.Defs.{sleeplock_acquire, sleeplock_release}
use sofie_os.Lock.Sleepers.{NoSleeper, wake_all-NoSleeper}
use sofie_os.Lock.Words.{value_of, spin_of, value-write_value, value-write_spin, spin-write_spin}
use sofie_os.Lock.Acquire.{Acquires, got, waits, lost, sleeplock_acquire-Acquires}

-- Where a task stands: outside, asleep in sleeplock_acquire with the rest of the call, or between
-- its acquire and its release.
pub data Status (Dev : Type 0) : Type 0 where
  outside : Status Dev
  waiting : Cmd (Kernel Dev) (Unit {0}) → Status Dev
  holding : Status Dev

pub record System (Dev : Type 0) : Type 0 where
  pub kernel : Kernel Dev
  pub status : ℕ → Status Dev

module _ {Dev : Type 0} where
  abbrev pub holds : Status Dev → Bool
  holds outside = false
  holds (waiting c) = false
  holds holding = true

  abbrev pub move : System Dev → ℕ → Kernel Dev → Status Dev → System Dev
  move s i k x = record { kernel = k; status = λ j. if i == j then x else s.status j }

  -- The run of a task that tries to take the lock, or goes on trying.
  abbrev pub next_run : ℕ → ℕ → Status Dev → Cmd (Kernel Dev) (Unit {0})
  next_run lock rounds outside = sleeplock_acquire rounds lock
  next_run lock rounds (waiting c) = c
  next_run lock rounds holding = λ _. fault

-- Between two steps the rest of the system may change anything but the two words of the lock.
pub record SameLock {Dev : Type 0} (lock : ℕ) (k0 k : Kernel Dev) : Type 0 where
  pub same_value : value_of lock k.mem ≡ value_of lock k0.mem
  pub same_spin : spin_of lock k.mem ≡ spin_of lock k0.mem

pub data Step {Dev : Type 0} (lock : ℕ) (s : System Dev) : System Dev → Type 0 where
  enters :
      (i rounds : ℕ) (k k' : Kernel Dev)
      → SameLock lock s.kernel k
      → next_run lock rounds (s.status i) k ≡ done tt k'
      → Step lock s (move s i k' holding)
  sleeps :
      (i rounds : ℕ) (k k' : Kernel Dev) (c : Cmd (Kernel Dev) (Unit {0}))
      → SameLock lock s.kernel k
      → next_run lock rounds (s.status i) k ≡ switched k' c
      → Step lock s (move s i k' (waiting c))
  -- A task releases the lock only when it holds it.
  releases :
      (i : ℕ) (k k' : Kernel Dev)
      → SameLock lock s.kernel k
      → s.status i ≡ holding
      → sleeplock_release lock k ≡ done tt k'
      → Step lock s (move s i k' outside)

-- From a state in which the lock is initialised and nobody uses it.
pub data Reach {Dev : Type 0} (lock : ℕ) : System Dev → Type 0 where
  start :
      (k : Kernel Dev)
      → value_of lock k.mem ≡ 0
      → spin_of lock k.mem ≡ 0
      → NoSleeper lock k.tasks
      → Reach lock (record { kernel = k; status = λ _. outside })
  later : {s t : System Dev} → Reach lock s → Step lock s t → Reach lock t

pub record Inv {Dev : Type 0} (lock : ℕ) (s : System Dev) : Type 0 where
  pub spin_free : spin_of lock s.kernel.mem ≡ 0
  pub free : value_of lock s.kernel.mem ≡ 0 → (i : ℕ) → holds (s.status i) ≡ false
  pub awake : value_of lock s.kernel.mem ≡ 0 → NoSleeper lock s.kernel.tasks
  pub unique : (i j : ℕ) → holds (s.status i) ≡ true → holds (s.status j) ≡ true → i ≡ j
  pub sleepers :
      (i : ℕ) (c : Cmd (Kernel Dev) (Unit {0}))
      → s.status i ≡ waiting c
      → (k : Kernel Dev) → spin_of lock k.mem ≡ 0
      → Acquires lock k (c k)

module _ {Dev : Type 0} where
  waiting-injective : (c d : Cmd (Kernel Dev) (Unit {0})) → waiting c ≡ waiting d → c ≡ d
  waiting-injective c d e = cc

  -- A release empties the lock, frees its spinlock and wakes all who sleep on it.
  release_frees :
      (lock : ℕ) (k k' : Kernel Dev)
      → spin_of lock k.mem ≡ 0
      → sleeplock_release lock k ≡ done tt k'
      → (value_of lock k'.mem ≡ 0) × (spin_of lock k'.mem ≡ 0) × NoSleeper lock k'.tasks
  unfolding sleeplock_release spinlock_acquire spinlock_release wakeup
  release_frees lock k k' free e =
      let m1 = store32 k.mem (lock + 4) 1 in
      let m2 = store32 m1 lock 0 in
      let mem : store32 m2 (lock + 4) 0 ≡ k'.mem = ground arith in
      let tasks : (wake_all lock k.tasks k.task_count).0 ≡ k'.tasks = ground arith in
      (
        subst (λ m. value_of lock m ≡ 0) mem
            (value-write_spin lock m2 0 ∙ value-write_value lock m1 0 (omega arith)),
        subst (λ m. spin_of lock m ≡ 0) mem (spin-write_spin lock m2 0 (omega arith)),
        subst (λ l. NoSleeper lock l) tasks (wake_all-NoSleeper lock k.tasks k.task_count),
      )

module _ {Dev : Type 0} {lock : ℕ} where
  Acquires-done :
      {k k' : Kernel Dev}
      → Acquires lock k (done tt k')
      → (value_of lock k.mem ≡ 0) × (value_of lock k'.mem ≡ 1) × (spin_of lock k'.mem ≡ 0)
  Acquires-done (got a b c) = (a, b, c)

  Acquires-switched :
      {k k' : Kernel Dev} {c : Cmd (Kernel Dev) (Unit {0})}
      → Acquires lock k (switched k' c)
      → (value_of lock k.mem ≢ 0)
        × (value_of lock k'.mem ≡ value_of lock k.mem)
        × (spin_of lock k'.mem ≡ 0)
        × ((k0 : Kernel Dev) → spin_of lock k0.mem ≡ 0 → Acquires lock k0 (c k0))
  Acquires-switched (waits a b c d) = (a, b, c, d)

  -- Whoever tries runs as `Acquires` says.
  next_run-Acquires :
      (rounds : ℕ) (s : System Dev) (i : ℕ) (x : Status Dev) (k : Kernel Dev)
      → Inv lock s
      → s.status i ≡ x
      → spin_of lock k.mem ≡ 0
      → Acquires lock k (next_run lock rounds x k)
  next_run-Acquires rounds s i outside k inv e free =
      sleeplock_acquire-Acquires Dev lock rounds k free
  next_run-Acquires rounds s i (waiting c) k inv e free = inv.sleepers i c e k free
  next_run-Acquires rounds s i holding k inv e free = lost

  -- Every step keeps the invariant.
  pub Step-Inv : {s t : System Dev} → Step lock s t → Inv lock s → Inv lock t
  Step-Inv {s} (enters i rounds k k' same e) inv =
      let free0 = same.same_spin ∙ inv.spin_free in
      let run = next_run-Acquires rounds s i (s.status i) k inv refl free0 in
      let (was_free, taken, spin) = Acquires-done (subst (λ r. Acquires lock k r) e run) in
      let nobody = inv.free (sym same.same_value ∙ was_free) in
      record {
        spin_free = spin;
        free = λ z. absurd (omega arith);
        awake = λ z. absurd (omega arith);
        unique = λ j l hj hl. ground (arith, nobody j, nobody l);
        sleepers = λ j c h. inv.sleepers j c (ground arith);
      }
  Step-Inv {s} (sleeps i rounds k k' c same e) inv =
      let free0 = same.same_spin ∙ inv.spin_free in
      let run = next_run-Acquires rounds s i (s.status i) k inv refl free0 in
      let (was_taken, kept, spin, rest) =
        Acquires-switched (subst (λ r. Acquires lock k r) e run) in
      record {
        spin_free = spin;
        free = λ z. absurd (was_taken (sym kept ∙ z));
        awake = λ z. absurd (was_taken (sym kept ∙ z));
        unique = λ j l hj hl. inv.unique j l (ground arith) (ground arith);
        sleepers = λ j d h. elim (Bool-cases (i == j)) [
          | inl here ↦
              let same_rest : c ≡ d = waiting-injective c d (ground (arith, h)) in
              λ k0 f. subst (λ r. Acquires lock k0 (r k0)) same_rest (rest k0 f)
          | inr other ↦ inv.sleepers j d (ground arith)
        ];
      }
  Step-Inv {s} (releases i k k' same e run) inv =
      let (value, spin, woken) = release_frees lock k k' (same.same_spin ∙ inv.spin_free) run in
      record {
        spin_free = spin;
        free = λ z j. ground (arith, inv.unique i j);
        awake = λ z. woken;
        unique = λ j l hj hl. inv.unique j l (ground arith) (ground arith);
        sleepers = λ j c h. inv.sleepers j c (ground arith);
      }

  pub Reach-Inv : {s : System Dev} → Reach lock s → Inv lock s
  Reach-Inv (start k value spin none_asleep) = record {
    spin_free = spin;
    free = λ z i. refl;
    awake = λ z. none_asleep;
    unique = λ i j hi hj. cc;
    sleepers = λ i c h. cc;
  }
  Reach-Inv (later r st) = Step-Inv st (Reach-Inv r)

  -- In every state that tasks can reach by taking a sleep lock, which a task may try at any time when it
  -- does not hold it, and by releasing it, which only the task that holds it does, in any order and
  -- with any changes outside the lock's two words between: while one task holds the lock, no other
  -- does.
  pub mutual_exclusion :
      {s : System Dev}
      → Reach lock s
      → (i j : ℕ) → i ≢ j
      → holds (s.status i) ≡ true
      → holds (s.status j) ≡ false
  mutual_exclusion {s} r i j other held = elim (Bool-cases (holds (s.status j))) [
    | inl both ↦ absurd (other ((Reach-Inv r).unique i j held both))
    | inr free ↦ free
  ]

  -- In every state that tasks can reach by taking a sleep lock and, where they hold it, releasing it, with
  -- any changes outside the lock's two words between, right after one has taken the lock, released it or
  -- gone to sleep on it: if the lock is free, no task sleeps on it. So no wake-up is lost.
  pub released_awake :
      {s : System Dev}
      → Reach lock s
      → value_of lock s.kernel.mem ≡ 0
      → (i : ℕ) (t : Task) → get_elem? s.kernel.tasks i ≡ some t
      → wakes lock t ≡ false
  released_awake r free i t at = All-get_elem? _ _ i t ((Reach-Inv r).awake free) at
