-- ===== src/Lock/Conservation.antt =====
-- What waiting for and posting one semaphore keep, whatever the order.
use sofie_os.Base.{
  false, get_elem?, some, All-get_elem?, ℕ, suc, ◌+◌, ◌≤◌, ◌<◌, ◌≡◌, ◌≢◌, refl, subst, ◌∙◌, arith,
  ◌==◌, Bool-cases, inl, inr,
}
use sofie_os.Word.{sub32_fits, word_size, add32, sub32}
use sofie_os.Memory.{store32}
use sofie_os.Kernel.{Task, Kernel, Cmd, done, switched}
use sofie_os.Task.{wakes, wake_all, spinlock_acquire, spinlock_release, wakeup}
use sofie_os.Lock.Defs.{semaphore_post}
use sofie_os.Lock.Words.{value_of, spin_of, value-write_value, value-write_spin, spin-write_spin}
use sofie_os.Lock.Sleepers.{NoSleeper, wake_all-NoSleeper}
use sofie_os.Lock.Wait.{LetsSleepNone, Waits, passes, rests, semaphore_wait-Waits}
use sofie_os.Lock.Semaphores.{
  Status, idle, waiting, System, next_run, Step, passes_by, sleeps, posts, Reach, start, later, Inv,
}

add32_one : (u v : ℕ) → u ≡ v → suc v < word_size → add32 u 1 ≡ suc v
unfolding add32
add32_one u v e h = omega arith

module _ {Dev : Type 0} where
  waiting-injective : (c d : Cmd (Kernel Dev) (Unit {0})) → waiting c ≡ waiting d → c ≡ d
  waiting-injective c d e = cc

  -- A post counts up and frees the spinlock.
  post_counts :
      (semaphore : ℕ) (k k' : Kernel Dev)
      → spin_of semaphore k.mem ≡ 0
      → suc (value_of semaphore k.mem) < word_size
      → semaphore_post semaphore k ≡ done tt k'
      → (value_of semaphore k'.mem ≡ suc (value_of semaphore k.mem))
        × (spin_of semaphore k'.mem ≡ 0)
        × NoSleeper semaphore k'.tasks
  unfolding semaphore_post spinlock_acquire spinlock_release wakeup
  post_counts semaphore k k' free small e =
      let m1 = store32 k.mem (semaphore + 4) 1 in
      let v = add32 (value_of semaphore m1) 1 in
      let m2 = store32 m1 semaphore v in
      let mem : store32 m2 (semaphore + 4) 0 ≡ k'.mem = ground arith in
      let tasks : (wake_all semaphore k.tasks k.task_count).0 ≡ k'.tasks = ground arith in
      let same = value-write_spin semaphore k.mem 1 in
      let up : v ≡ suc (value_of semaphore k.mem) =
        add32_one (value_of semaphore m1) (value_of semaphore k.mem) same small in
      (
        subst (λ m. value_of semaphore m ≡ suc (value_of semaphore k.mem)) mem
            (value-write_spin semaphore m2 0 ∙ value-write_value semaphore m1 v (omega arith) ∙ up),
        subst (λ m. spin_of semaphore m ≡ 0) mem (spin-write_spin semaphore m2 0 (omega arith)),
        subst (λ l. NoSleeper semaphore l) tasks
            (wake_all-NoSleeper semaphore k.tasks k.task_count),
      )

module _ {Dev : Type 0} {semaphore : ℕ} where
  Waits-done :
      {k k' : Kernel Dev}
      → Waits semaphore k (done tt k')
      → (value_of semaphore k.mem ≢ 0)
        × (value_of semaphore k'.mem ≡ sub32 (value_of semaphore k.mem) 1)
        × (spin_of semaphore k'.mem ≡ 0)
        × LetsSleepNone semaphore k.tasks k'.tasks
  Waits-done (passes a b c d) = (a, b, c, d)

  Waits-switched :
      {k k' : Kernel Dev} {c : Cmd (Kernel Dev) (Unit {0})}
      → Waits semaphore k (switched k' c)
      → (value_of semaphore k.mem ≡ 0)
        × (value_of semaphore k'.mem ≡ 0)
        × (spin_of semaphore k'.mem ≡ 0)
        × ((k0 : Kernel Dev) → spin_of semaphore k0.mem ≡ 0 → Waits semaphore k0 (c k0))
  Waits-switched (rests a b c d) = (a, b, c, d)

module _ {Dev : Type 0} {semaphore initial : ℕ} where
  next_run-Waits :
      (rounds : ℕ) (s : System Dev) (i : ℕ) (x : Status Dev) (k : Kernel Dev)
      → Inv semaphore initial s
      → s.status i ≡ x
      → spin_of semaphore k.mem ≡ 0
      → Waits semaphore k (next_run semaphore rounds x k)
  next_run-Waits rounds s i idle k inv e free = semaphore_wait-Waits Dev semaphore rounds k free
  next_run-Waits rounds s i (waiting c) k inv e free = inv.sleepers i c e k free

  -- Every step keeps the invariant.
  pub Step-Inv :
      {s t : System Dev} → Step semaphore s t → Inv semaphore initial s → Inv semaphore initial t
  Step-Inv {s} (passes_by i rounds k k' same e) inv =
      let free0 = same.same_spin ∙ inv.spin_free in
      let run = next_run-Waits rounds s i (s.status i) k inv refl free0 in
      let (positive, less, spin, none_asleep) =
        Waits-done (subst (λ r. Waits semaphore k r) e run) in
      let down =
        sub32_fits (value_of semaphore k.mem) 1 (omega arith)
          (omega (arith, same.same_value, inv.small)) in
      record {
        spin_free = spin;
        small = omega (arith, less, down, same.same_value, inv.small);
        balance = omega (arith, less, down, same.same_value, inv.balance);
        awake = λ real some_left.
            none_asleep real
              (same.same_sleepers (inv.awake real (subst (λ v. v ≢ 0) same.same_value positive)));
        sleepers = λ j c h. inv.sleepers j c (ground arith);
      }
  Step-Inv {s} (sleeps i rounds k k' c same e) inv =
      let free0 = same.same_spin ∙ inv.spin_free in
      let run = next_run-Waits rounds s i (s.status i) k inv refl free0 in
      let (empty, kept, spin, rest) = Waits-switched (subst (λ r. Waits semaphore k r) e run) in
      record {
        spin_free = spin;
        small = omega arith;
        balance = omega (arith, same.same_value, inv.balance);
        awake = λ real some_left. absurd (some_left kept);
        sleepers = λ j d h. elim (Bool-cases (i == j)) [
          | inl here ↦
              let same_rest : c ≡ d = waiting-injective c d (ground (arith, h)) in
              λ k0 f. subst (λ r. Waits semaphore k0 (r k0)) same_rest (rest k0 f)
          | inr other ↦ inv.sleepers j d (ground arith)
        ];
      }
  Step-Inv {s} (posts k k' same small run) inv =
      let (up, spin, woken) =
        post_counts semaphore k k' (same.same_spin ∙ inv.spin_free) small run in
      record {
        spin_free = spin;
        small = omega (arith, up, small);
        balance = omega (arith, up, same.same_value, inv.balance);
        awake = λ real some_left. woken;
        sleepers = inv.sleepers;
      }

  pub Reach-Inv : {s : System Dev} → Reach semaphore initial s → Inv semaphore initial s
  Reach-Inv (start k value small spin none_asleep) = record {
    spin_free = spin;
    small = omega arith;
    balance = omega arith;
    awake = λ real some_left. none_asleep;
    sleepers = λ i c h. cc;
  }
  Reach-Inv (later r st) = Step-Inv st (Reach-Inv r)

  -- In every state that tasks can reach by waiting for and posting a semaphore, in any order, with any
  -- changes between that leave the semaphore's two words and put no task to sleep on it, and as long as
  -- no post overflows the word: the value and the calls of semaphore_wait that have returned add up to
  -- the initial value and the calls of semaphore_post that have returned. So no more waits return than
  -- posts and the initial value allow.
  pub semaphore_balance :
      {s : System Dev}
      → Reach semaphore initial s
      → (value_of semaphore s.kernel.mem + s.passed ≡ initial + s.posted)
        × (s.passed ≤ initial + s.posted)
  semaphore_balance r = let inv = Reach-Inv r in (inv.balance, omega (arith, inv.balance))

  -- In every state that tasks can reach as in semaphore_balance, for a semaphore that does not lie at
  -- the address 0: while its value is positive, no task sleeps on it. So no wake-up is lost.
  pub no_lost_wakeup :
      {s : System Dev}
      → Reach semaphore initial s
      → semaphore ≢ 0
      → value_of semaphore s.kernel.mem ≢ 0
      → (i : ℕ) (t : Task) → get_elem? s.kernel.tasks i ≡ some t
      → wakes semaphore t ≡ false
  no_lost_wakeup r real some_left i t at =
      All-get_elem? _ _ i t ((Reach-Inv r).awake real some_left) at
