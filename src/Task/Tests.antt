-- ===== src/Task/Tests.antt =====
-- Runs of the functions of kernel/src/task.c.
use sofie_os.Base.{
  ℕ, suc, ◌≤◌, ◌≡◌, refl, true, [], ◌∷◌, get_elem?, arith, inl, inr, some, none, Option, length,
  Option-cases, get_elem?-none,
}
use sofie_os.Metal.Regs.{Regs, metal_regs}
use sofie_os.Kernel.{Task, Kernel, done, Run}
use sofie_os.Fixture.{small_kernel}
use sofie_os.Word.{bit_at, add32}
use sofie_os.Memory.{store32}
use sofie_os.Task.{
  get_tid, set_state, set_just_allocated, is_runnable, is_running, max_task_count, used_tids,
  first_free,
}
use sofie_os.Task.Count.{awake}
use sofie_os.Task.Create.{create_task, enter_task, new_task, sleeplock_init, semaphore_init}
use sofie_os.Task.Sleep.{put_to_sleep, wake_up, sleep_switched}
use sofie_os.Task.Unique.{tids, Distinct, UpTo}
use sofie_os.Task.Schedule
use sofie_os.Task.OneRunning.{one_running, Reach-Inv}
use sofie_os.Task.Rounds.{scan, IsReadyAt, GivesBack, Visits, sleeps_back}
use sofie_os.Task.Passes.{pass-turns}

-- No task yet, and memory for one.
abbrev empty_kernel : Kernel Regs
empty_kernel = record small_kernel {
  tasks = [];
  task_count = 0;
  current = none;
  mallocs = 0x5000 ∷ 0x5100 ∷ 0x5500 ∷ 0x5600 ∷ 0x5700 ∷ [];
}

abbrev after_create : Run (Kernel Regs) ℕ → Kernel Regs
after_create (done a k) = k
after_create _ = empty_kernel

abbrev one_task : Kernel Regs
one_task = after_create (create_task 0x1234 empty_kernel)

one_task_run : create_task 0x1234 empty_kernel ≡ done 1 one_task
unfolding create_task get_tid used_tids first_free bit_at sleeplock_init semaphore_init new_task
    store32 add32
one_task_run = refl

one_task-Reach : Schedule.Reach one_task
one_task-Reach =
    Schedule.later (Schedule.start empty_kernel refl refl refl)
      (Schedule.creates 0x1234 1 one_task one_task_run)

abbrev after_enter : Option (Kernel Regs) → Kernel Regs
after_enter none = empty_kernel
after_enter (some k) = k

-- The scheduler has switched to the task.
abbrev in_task : Kernel Regs
in_task = after_enter (enter_task 0 one_task)

in_task_run : enter_task 0 one_task ≡ some in_task
unfolding create_task get_tid used_tids first_free bit_at sleeplock_init semaphore_init new_task
    store32 add32 enter_task is_runnable set_state set_just_allocated
in_task_run = refl

idle_again : one_task.current ≡ none
unfolding create_task get_tid used_tids first_free bit_at sleeplock_init semaphore_init new_task
    store32 add32
idle_again = refl

in_task-Reach : Schedule.Reach in_task
in_task-Reach = Schedule.later one_task-Reach (Schedule.enters 0 in_task idle_again in_task_run)

one_running_example :
    ((i j : ℕ) (t u : Task)
      → get_elem? in_task.tasks i ≡ some t
      → get_elem? in_task.tasks j ≡ some u
      → is_running t.state ≡ true
      → is_running u.state ≡ true
      → (i ≡ j) × (in_task.current ≡ some i))
    × (in_task.task_count ≡ awake in_task.tasks)
    × Distinct (tids in_task.tasks)
    × UpTo max_task_count (tids in_task.tasks)
    × (length in_task.tasks ≤ max_task_count)
one_running_example = one_running in_task in_task-Reach

-- Every task sleeps as soon as it is switched to.
abbrev sleepy : ℕ → Kernel Regs → Kernel Regs
sleepy i k = elim (get_elem? k.tasks i) [ none ↦ k | some t ↦ put_to_sleep 0x4000 0x4004 i t k ]

sleepy-GivesBack : GivesBack sleepy
sleepy-GivesBack i k inv cur = elim (Option-cases (get_elem? k.tasks i)) [
  | inl e ↦ absurd (omega (arith, get_elem?-none k.tasks i e, inv.inside i cur))
  | inr (t, at) ↦
      sleeps_back 0x4000 0x4004 k (sleepy i k) (wake_up 0x4004)
        (rw (at, sleepy) (sleep_switched 0x4000 0x4004 i t k cur at))
]

pass-turns_example :
    let pass = scan sleepy (suc max_task_count) 0 one_task in
    ((k' : Kernel Regs) × (pass.1 ≡ some k') × Schedule.Inv k' × (k'.current ≡ none))
    × ((j : ℕ) → IsReadyAt j one_task → Visits j pass.0)
pass-turns_example =
    pass-turns sleepy sleepy-GivesBack one_task (Reach-Inv one_task-Reach) idle_again
