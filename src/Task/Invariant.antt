-- ===== src/Task/Invariant.antt =====
-- What the invariant of the task table of kernel/src/task.c says at once.
use sofie_os.Base.{ℕ, ◌≤◌, ◌≡◌, ◌⊎◌, true, false, length, arith}
use sofie_os.Kernel.{Kernel}
use sofie_os.Task.Flags.{is_sleeping, is_running, is_runnable}
use sofie_os.Task.Table.{max_task_count}
use sofie_os.Task.Count.{IsCounted}
use sofie_os.Task.Unique.{tids, length-tids, length-UpTo}
use sofie_os.Task.Schedule.{IsOneState, Inv}

pub not_sleeping :
    (x : ℕ) → IsOneState x → (is_runnable x ≡ true) ⊎ (is_running x ≡ true) → is_sleeping x ≡ false
unfolding is_runnable is_running is_sleeping
not_sleeping x one up = ground (arith, one, up)

module _ {Dev : Type 0} where
  -- The table is within its limit.
  pub Inv-size : (k : Kernel Dev) → Inv k → length k.tasks ≤ max_task_count
  Inv-size k inv =
      omega (
        arith,
        length-tids k.tasks,
        length-UpTo max_task_count (tids k.tasks) inv.range inv.distinct,
      )

  pub Inv-IsCounted : (k : Kernel Dev) → Inv k → IsCounted k
  Inv-IsCounted k inv = record { count = inv.count; size = Inv-size k inv }
