-- ===== src/Lock/Acquire.antt =====
-- What a call of sleeplock_acquire does from any state, across all its sleeps.
use sofie_os.Base.{
  ℕ, zero, suc, ◌+◌, ◌≡◌, ◌≢◌, sym, subst, ◌∙◌, get_elem?, arith, Bool-cases, Option-cases, inl,
  inr, ◌==◌, ==→eq, not-==→ne,
}
use sofie_os.Memory.{store32}
use sofie_os.Kernel.{Kernel, Run, Cmd, done, fault, starved, switched, and_then, ◌>>◌, write_word}
use sofie_os.Task.{spinlock_release, sleep}
use sofie_os.Task.Sleep.{
  wake_up, sleep_idle, sleep_wild, sleep_switched, wake_up_taken, wake_up_wild, wake_up_missing,
  spinlock_acquire_free,
}
use sofie_os.Lock.Defs.{lock_loop, sleeplock_acquire}
use sofie_os.Lock.Words.{value_of, spin_of, value-write_value, value-write_spin, spin-write_spin}

-- The run of an acquire that was begun, or is taken up again, in state `k` where the lock's spinlock is
-- free. Either it gets the lock, which was free in `k`, and leaves it taken; or it sleeps, having found
-- the lock taken in `k`, leaves the lock as it was, and goes on so from whatever state it is taken up
-- in; or it comes to no result. The spinlock is free whenever others run.
pub data Acquires {Dev : Type 0} (lock : ℕ)
    : Kernel Dev → Run (Kernel Dev) (Unit {0}) → Type 0 where
  got :
      {k k' : Kernel Dev}
      → value_of lock k.mem ≡ 0
      → value_of lock k'.mem ≡ 1
      → spin_of lock k'.mem ≡ 0
      → Acquires lock k (done tt k')
  waits :
      {k k' : Kernel Dev} {c : Cmd (Kernel Dev) (Unit {0})}
      → value_of lock k.mem ≢ 0
      → value_of lock k'.mem ≡ value_of lock k.mem
      → spin_of lock k'.mem ≡ 0
      → ((k0 : Kernel Dev) → spin_of lock k0.mem ≡ 0 → Acquires lock k0 (c k0))
      → Acquires lock k (switched k' c)
  lost : {k : Kernel Dev} → Acquires lock k fault
  gave_up : {k k' : Kernel Dev} → Acquires lock k (starved k')

module _ (Dev : Type 0) (lock : ℕ) where
  -- What follows the loop, and the loop with what follows it.
  abbrev finish : Cmd (Kernel Dev) (Unit {0})
  finish = do write_word lock 1; spinlock_release (lock + 4)

  abbrev loop_then_finish : ℕ → Cmd (Kernel Dev) (Unit {0})
  loop_then_finish rounds k = and_then (lock_loop rounds lock k) (λ _. finish)

  -- The rest of a run that sleeps with `rounds` rounds left.
  abbrev resume : ℕ → Cmd (Kernel Dev) (Unit {0})
  resume rounds k =
      and_then (and_then (wake_up (lock + 4) k) (λ _. lock_loop rounds lock)) (λ _. finish)

  finish-got : (k k1 : Kernel Dev) → value_of lock k.mem ≡ 0 → Acquires lock k (finish k1)
  unfolding spinlock_release
  finish-got k k1 free =
      let m = store32 k1.mem lock 1 in
      got free (value-write_spin lock m 0 ∙ value-write_value lock k1.mem 1 (omega arith))
        (spin-write_spin lock m 0 (omega arith))

  -- What the loop does with `rounds` rounds left, for all states.
  abbrev LoopAcquires : ℕ → Type 0
  LoopAcquires rounds =
      (k k1 : Kernel Dev)
      → value_of lock k1.mem ≡ value_of lock k.mem
      → Acquires lock k (loop_then_finish rounds k1)

  resume-Acquires :
      (rounds : ℕ)
      → LoopAcquires rounds
      → (k : Kernel Dev) → spin_of lock k.mem ≡ 0
      → Acquires lock k (resume rounds k)
  resume-Acquires rounds loop k free = elim (Option-cases k.current) [
    | inl idle ↦ rw (wake_up_wild (lock + 4) k idle) lost
    | inr (i, cur) ↦ elim (Option-cases (get_elem? k.tasks i)) [
      | inl wild ↦ rw (wake_up_missing (lock + 4) i k cur wild) lost
      | inr (t, at) ↦
          rw (wake_up_taken (lock + 4) i t k cur at free) (loop k _ (value-write_spin lock k.mem 1))
    ]
  ]

  slept-Acquires :
      (rounds : ℕ)
      → LoopAcquires rounds
      → (k k1 : Kernel Dev) → value_of lock k1.mem ≡ value_of lock k.mem
      → value_of lock k.mem ≢ 0
      → Acquires lock k (
          and_then (and_then (sleep lock (lock + 4) k1) (λ _. lock_loop rounds lock)) (λ _. finish))
  slept-Acquires rounds loop k k1 same taken = elim (Option-cases k1.current) [
    | inl idle ↦ rw (sleep_idle lock (lock + 4) k1 idle) (loop k k1 same)
    | inr (i, cur) ↦ elim (Option-cases (get_elem? k1.tasks i)) [
      | inl wild ↦ rw (sleep_wild lock (lock + 4) i k1 cur wild) lost
      | inr (t, at) ↦ rw (sleep_switched lock (lock + 4) i t k1 cur at) (
          waits taken (value-write_spin lock k1.mem 0 ∙ same)
            (spin-write_spin lock k1.mem 0 (omega arith)) (resume-Acquires rounds loop))
    ]
  ]

  -- The loop, entered in a state `k1` whose lock has the value that it had in `k`.
  loop-Acquires : (rounds : ℕ) → LoopAcquires rounds
  unfolding lock_loop
  loop-Acquires zero k k1 same = gave_up
  loop-Acquires (suc rounds) k k1 same = elim (Bool-cases (value_of lock k1.mem == 0)) [
    | inl free ↦ rw free (finish-got k k1 (sym same ∙ ==→eq _ _ free))
    | inr taken ↦ rw taken (
        slept-Acquires rounds (loop-Acquires rounds) k k1 same
          (subst (λ v. v ≢ 0) same (not-==→ne _ _ taken)))
  ]

  -- From a state where the lock's spinlock is free, and for any number of rounds, sleeplock_acquire
  -- behaves as `Acquires` says: it returns only with the lock taken and its
  -- spinlock free, and having found the lock free when it last began to run; else it sleeps, again with the
  -- spinlock free.
  pub sleeplock_acquire-Acquires :
      (rounds : ℕ) (k : Kernel Dev)
      → spin_of lock k.mem ≡ 0
      → Acquires lock k (sleeplock_acquire rounds lock k)
  unfolding sleeplock_acquire
  sleeplock_acquire-Acquires rounds k free =
      rw (spinlock_acquire_free (lock + 4) k free)
        (loop-Acquires rounds k _ (value-write_spin lock k.mem 1))
