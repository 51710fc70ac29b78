-- ===== src/Lock/Tests.antt =====
-- Runs of the functions of kernel/src/lock.c.
use sofie_os.Base.{false, some, get_elem?, ◌≡◌, refl, ◌==◌, if◌then◌else◌, ◌+◌, ◌≤◌, arith}
use sofie_os.Metal.Regs.{Regs, metal_regs}
use sofie_os.Fixture.{second_task, small_kernel, small_mem}
use sofie_os.Memory.{load32, store32, store8}
use sofie_os.Lock.{
  sleeplock_acquire, lock_loop, sleeplock_release, semaphore_wait, semaphore_loop, semaphore_post,
}
use sofie_os.Lock.Exclusion.{
  Reach, System, outside, waiting, holding, holds, move, start, later, enters, sleeps, releases,
  mutual_exclusion, released_awake,
}
use sofie_os.Message.Words.{sleeplock_acquire_free, section_at}
use sofie_os.Word.{add32, sub32}
use sofie_os.Kernel.{Kernel, Run, Cmd, done, switched, fault}
use sofie_os.Task.{
  wakes, wake, is_sleeping, spinlock_acquire, spinlock_release, wakeup, wake_all, sleep, sched,
}
use sofie_os.Lock.Semaphores
use sofie_os.Lock.Words.{value_of}
use sofie_os.Lock.Conservation.{semaphore_balance, no_lost_wakeup}

-- Nobody uses the lock.
abbrev nobody : System Regs
nobody = record { kernel = small_kernel; status = λ _. outside }

-- One task has taken a free lock.
one_holds :
    Reach 0x4000
      (move nobody 0 (record small_kernel { mem = section_at 0x4000 1 small_mem }) holding)
unfolding load32 store32 is_sleeping
one_holds = later (start small_kernel refl refl (refl, (refl, tt))) (
    enters 0 1 small_kernel (record small_kernel { mem = section_at 0x4000 1 small_mem })
      (record { same_value = refl; same_spin = refl })
      (sleeplock_acquire_free 0 0x4000 small_kernel refl refl))

-- The second task tries to take the lock, and goes to sleep on it.
abbrev contender : Kernel Regs
contender = record small_kernel { mem = section_at 0x4000 1 small_mem; current = some 1 }

abbrev try_run : Run (Kernel Regs) (Unit {0})
try_run = sleeplock_acquire 1 0x4000 contender

abbrev slept : Run (Kernel Regs) (Unit {0}) → Kernel Regs
slept (switched k rest) = k
slept _ = contender

abbrev woken : Run (Kernel Regs) (Unit {0}) → Cmd (Kernel Regs) (Unit {0})
woken (switched k rest) = rest
woken _ = λ _. fault

abbrev one_waits : System Regs
one_waits =
    move (move nobody 0 (record small_kernel { mem = section_at 0x4000 1 small_mem }) holding) 1
      (slept try_run) (waiting (woken try_run))

one_waits-Reach : Reach 0x4000 one_waits
unfolding sleeplock_acquire lock_loop spinlock_acquire spinlock_release sleep sched load32 store32
    store8 add32 sub32
one_waits-Reach = later one_holds (
    sleeps 1 1 contender (slept try_run) (woken try_run)
      (record { same_value = refl; same_spin = refl }) refl)

mutual_exclusion_example : holds (one_waits.status 1) ≡ false
mutual_exclusion_example = mutual_exclusion one_waits-Reach 0 1 (omega arith) refl

-- A semaphore whose value is 1, and the states after a wait and a post.
abbrev one_kernel : Kernel Regs
one_kernel = record small_kernel { mem = store32 small_mem 0x4000 1 }

abbrev run_end : Run (Kernel Regs) (Unit {0}) → Kernel Regs
run_end (done a k) = k
run_end _ = one_kernel

abbrev waited : Kernel Regs
waited = run_end (semaphore_wait 1 0x4000 one_kernel)

abbrev posted_again : Kernel Regs
posted_again = run_end (semaphore_post 0x4000 waited)

abbrev one_balance : Semaphores.System Regs
one_balance = record {
  kernel = posted_again;
  status = λ j. if 0 == j then Semaphores.idle else Semaphores.idle;
  passed = 1;
  posted = 1;
}

one_balance-Reach : Semaphores.Reach 0x4000 1 one_balance
unfolding load32 store32 semaphore_wait semaphore_loop semaphore_post spinlock_acquire
    spinlock_release wakeup wake_all wake add32 sub32 is_sleeping
one_balance-Reach =
    Semaphores.later
      (Semaphores.later (Semaphores.start one_kernel refl (omega arith) refl (refl, (refl, tt))) (
        Semaphores.passes_by 0 1 one_kernel waited
          (record { same_value = refl; same_spin = refl; same_sleepers = λ h. h }) refl))
      (Semaphores.posts waited posted_again
        (record { same_value = refl; same_spin = refl; same_sleepers = λ h. h }) (omega arith) refl)

semaphore_balance_example : (value_of 0x4000 posted_again.mem + 1 ≡ 1 + 1) × (1 ≤ 1 + 1)
semaphore_balance_example = semaphore_balance one_balance-Reach

-- The value of the semaphore is 1, and the second task is still there.
one_left : value_of 0x4000 posted_again.mem ≡ 1
unfolding load32 store32 semaphore_wait semaphore_loop semaphore_post spinlock_acquire
    spinlock_release wakeup wake_all wake add32 sub32 is_sleeping
one_left = refl

second_there : get_elem? posted_again.tasks 1 ≡ some second_task
unfolding load32 store32 semaphore_wait semaphore_loop semaphore_post spinlock_acquire
    spinlock_release wakeup wake_all wake add32 sub32 is_sleeping
second_there = refl

no_lost_wakeup_example : wakes 0x4000 second_task ≡ false
no_lost_wakeup_example =
    no_lost_wakeup one_balance-Reach (omega arith) (omega (arith, one_left)) 1 second_task
      second_there

-- The lock, after the task has released it.
abbrev held : Kernel Regs
held = record small_kernel { mem = section_at 0x4000 1 small_mem }

abbrev freed : Kernel Regs
freed = run_end (sleeplock_release 0x4000 held)

freed-Reach : Reach 0x4000 (move (move nobody 0 held holding) 0 freed outside)
unfolding sleeplock_release spinlock_acquire spinlock_release wakeup wake_all wake load32 store32
    is_sleeping
freed-Reach =
    later one_holds
      (releases 0 held freed (record { same_value = refl; same_spin = refl }) refl refl)

freed_value : value_of 0x4000 freed.mem ≡ 0
unfolding sleeplock_release spinlock_acquire spinlock_release wakeup wake_all wake load32 store32
    is_sleeping
freed_value = refl

freed_second : get_elem? freed.tasks 1 ≡ some second_task
unfolding sleeplock_release spinlock_acquire spinlock_release wakeup wake_all wake load32 store32
    is_sleeping
freed_second = refl

released_awake_example : wakes 0x4000 second_task ≡ false
released_awake_example = released_awake freed-Reach freed_value 1 second_task freed_second
