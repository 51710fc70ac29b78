-- ===== src/Lock/Wait.antt =====
-- What a call of semaphore_wait does from any state, across all its sleeps.
use sofie_os.Base.{
  set, All-set, List, ℕ, zero, suc, ◌+◌, ◌≡◌, ◌≢◌, sym, subst, ap, ◌∙◌, get_elem?, arith,
  Bool-cases, Option-cases, inl, inr, ◌==◌, ==→eq, not-==→ne,
}
use sofie_os.Word.{sub32-lt, sub32}
use sofie_os.Memory.{store32}
use sofie_os.Kernel.{
  Task, Kernel, Run, Cmd, done, fault, starved, switched, and_then, ◌>>=◌, ◌>>◌, write_word,
  read_word,
}
use sofie_os.Task.{spinlock_release, sleep}
use sofie_os.Task.Sleep.{
  wake_up, sleep_idle, sleep_wild, sleep_switched, wake_up_taken, wake_up_wild, wake_up_missing,
  spinlock_acquire_free,
}
use sofie_os.Lock.Defs.{semaphore_loop, semaphore_wait}
use sofie_os.Lock.Sleepers.{NoSleeper}
use sofie_os.Lock.Words.{value_of, spin_of, value-write_value, value-write_spin, spin-write_spin}

-- The second state has no task asleep on the channel, which is not NULL, if the first has none.
abbrev pub LetsSleepNone : ℕ → List Task → List Task → Type 0
LetsSleepNone channel l l' = channel ≢ 0 → NoSleeper channel l → NoSleeper channel l'

-- A task that runs on after its sleep waits on no channel.
forgets-LetsSleepNone :
    (channel i : ℕ) (t : Task) (l : List Task)
    → LetsSleepNone channel l (set l i (record t { sleep_channel = 0 }))
forgets-LetsSleepNone channel i t l real none_asleep =
    All-set _ l i (record t { sleep_channel = 0 }) (ground arith) none_asleep

-- The run of a wait that was begun, or is taken up again, in state `k` where the semaphore's spinlock
-- is free. Either it takes one from a value that was positive in `k`, and puts no task to sleep on the
-- semaphore; or it sleeps, having found the value 0 in `k`, leaves it so, and goes on so from whatever
-- state it is taken up in; or it comes to no result. The spinlock is free whenever others run.
pub data Waits {Dev : Type 0} (semaphore : ℕ)
    : Kernel Dev → Run (Kernel Dev) (Unit {0}) → Type 0 where
  passes :
      {k k' : Kernel Dev}
      → value_of semaphore k.mem ≢ 0
      → value_of semaphore k'.mem ≡ sub32 (value_of semaphore k.mem) 1
      → spin_of semaphore k'.mem ≡ 0
      → LetsSleepNone semaphore k.tasks k'.tasks
      → Waits semaphore k (done tt k')
  rests :
      {k k' : Kernel Dev} {c : Cmd (Kernel Dev) (Unit {0})}
      → value_of semaphore k.mem ≡ 0
      → value_of semaphore k'.mem ≡ 0
      → spin_of semaphore k'.mem ≡ 0
      → ((k0 : Kernel Dev) → spin_of semaphore k0.mem ≡ 0 → Waits semaphore k0 (c k0))
      → Waits semaphore k (switched k' c)
  lost : {k : Kernel Dev} → Waits semaphore k fault
  gave_up : {k k' : Kernel Dev} → Waits semaphore k (starved k')

module _ (Dev : Type 0) (semaphore : ℕ) where
  -- What follows the loop, and the loop with what follows it.
  abbrev finish : Cmd (Kernel Dev) (Unit {0})
  finish = do
    value ← read_word semaphore
    write_word semaphore (sub32 value 1)
    spinlock_release (semaphore + 4)

  abbrev loop_then_finish : ℕ → Cmd (Kernel Dev) (Unit {0})
  loop_then_finish rounds k = and_then (semaphore_loop rounds semaphore k) (λ _. finish)

  -- The rest of a run that sleeps with `rounds` rounds left.
  abbrev resume : ℕ → Cmd (Kernel Dev) (Unit {0})
  resume rounds k =
      and_then (and_then (wake_up (semaphore + 4) k) (λ _. semaphore_loop rounds semaphore))
        (λ _. finish)

  finish-Waits :
      (k k1 : Kernel Dev)
      → value_of semaphore k1.mem ≡ value_of semaphore k.mem
      → LetsSleepNone semaphore k.tasks k1.tasks
      → value_of semaphore k.mem ≢ 0
      → Waits semaphore k (finish k1)
  unfolding spinlock_release
  finish-Waits k k1 same none_asleep positive =
      let v = sub32 (value_of semaphore k1.mem) 1 in
      let m = store32 k1.mem semaphore v in
      passes positive
        (value-write_spin semaphore m 0
          ∙ value-write_value semaphore k1.mem v (sub32-lt (value_of semaphore k1.mem) 1)
          ∙ ap (λ x. sub32 x 1) same)
        (spin-write_spin semaphore m 0 (omega arith)) none_asleep

  -- What the loop does with `rounds` rounds left, for all states.
  abbrev LoopWaits : ℕ → Type 0
  LoopWaits rounds =
      (k k1 : Kernel Dev)
      → value_of semaphore k1.mem ≡ value_of semaphore k.mem
      → LetsSleepNone semaphore k.tasks k1.tasks
      → Waits semaphore k (loop_then_finish rounds k1)

  resume-Waits :
      (rounds : ℕ)
      → LoopWaits rounds
      → (k : Kernel Dev) → spin_of semaphore k.mem ≡ 0
      → Waits semaphore k (resume rounds k)
  resume-Waits rounds loop k free = elim (Option-cases k.current) [
    | inl idle ↦ rw (wake_up_wild (semaphore + 4) k idle) lost
    | inr (i, cur) ↦ elim (Option-cases (get_elem? k.tasks i)) [
      | inl wild ↦ rw (wake_up_missing (semaphore + 4) i k cur wild) lost
      | inr (t, at) ↦ rw (wake_up_taken (semaphore + 4) i t k cur at free) (
          loop k _ (value-write_spin semaphore k.mem 1)
            (forgets-LetsSleepNone semaphore i t k.tasks))
    ]
  ]

  slept-Waits :
      (rounds : ℕ)
      → LoopWaits rounds
      → (k k1 : Kernel Dev) → value_of semaphore k1.mem ≡ value_of semaphore k.mem
      → LetsSleepNone semaphore k.tasks k1.tasks
      → value_of semaphore k.mem ≡ 0
      → Waits semaphore k (
          and_then
            (and_then (sleep semaphore (semaphore + 4) k1) (λ _. semaphore_loop rounds semaphore))
            (λ _. finish))
  slept-Waits rounds loop k k1 same none_asleep empty = elim (Option-cases k1.current) [
    | inl idle ↦ rw (sleep_idle semaphore (semaphore + 4) k1 idle) (loop k k1 same none_asleep)
    | inr (i, cur) ↦ elim (Option-cases (get_elem? k1.tasks i)) [
      | inl wild ↦ rw (sleep_wild semaphore (semaphore + 4) i k1 cur wild) lost
      | inr (t, at) ↦ rw (sleep_switched semaphore (semaphore + 4) i t k1 cur at) (
          rests empty (value-write_spin semaphore k1.mem 0 ∙ same ∙ empty)
            (spin-write_spin semaphore k1.mem 0 (omega arith)) (resume-Waits rounds loop))
    ]
  ]

  -- The loop, entered in a state `k1` whose semaphore has the value that it had in `k`.
  loop-Waits : (rounds : ℕ) → LoopWaits rounds
  unfolding semaphore_loop
  loop-Waits zero k k1 same none_asleep = gave_up
  loop-Waits (suc rounds) k k1 same none_asleep =
      elim (Bool-cases (value_of semaphore k1.mem == 0)) [
        | inl empty ↦ rw empty (
            slept-Waits rounds (loop-Waits rounds) k k1 same none_asleep
              (sym same ∙ ==→eq _ _ empty))
        | inr left ↦
            rw left
              (finish-Waits k k1 same none_asleep (subst (λ v. v ≢ 0) same (not-==→ne _ _ left)))
      ]

  -- From a state where the semaphore's spinlock is free, and for any number of rounds, semaphore_wait
  -- behaves as `Waits` says: it returns only having taken one from a positive value; else it sleeps,
  -- having found the value 0 when it last began to run; and it leaves the spinlock free.
  pub semaphore_wait-Waits :
      (rounds : ℕ) (k : Kernel Dev)
      → spin_of semaphore k.mem ≡ 0
      → Waits semaphore k (semaphore_wait rounds semaphore k)
  unfolding semaphore_wait
  semaphore_wait-Waits rounds k free =
      rw (spinlock_acquire_free (semaphore + 4) k free) (
        loop-Waits rounds k _ (value-write_spin semaphore k.mem 1)
          (λ real none_asleep. none_asleep))
