-- ===== src/Task/Schedule.antt =====
-- The scheduler and the calls that change a task's state in kernel/src/task.c, interleaved in any order.
use sofie_os.Base.{
  ℕ, ◌%◌, ◌<◌, ◌≡◌, ◌⊎◌, Option, some, none, List, [], ◌∷◌, get_elem?, length, true,
}
use sofie_os.Metal.{Metal}
use sofie_os.Kernel.{Task, Kernel, Cmd, done, switched}
use sofie_os.Task.Flags.{is_running}
use sofie_os.Task.Table.{max_task_count}
use sofie_os.Task.Defs.{sleep, wakeup, task_yield}
use sofie_os.Task.Create.{create_task, enter_task, leave_task}
use sofie_os.Task.Count.{awake}
use sofie_os.Task.Unique.{tids, UpTo, Distinct}

-- The states of a table.
unfoldable pub states : List Task → List ℕ
states [] = []
states (t ∷ rest) = t.state ∷ states rest

-- Between two steps the rest of the system may change anything but the tasks' ids and states, their
-- number, the count, and which task is current.
pub record SameTable {Dev : Type 0} (k k' : Kernel Dev) : Type 0 where
  pub same_tids : tids k'.tasks ≡ tids k.tasks
  pub same_states : states k'.tasks ≡ states k.tasks
  pub same_count : k'.task_count ≡ k.task_count
  pub same_current : k'.current ≡ k.current

pub data Step {Dev : Type 0} ⦃metal : Metal Dev⦄ (k : Kernel Dev) : Kernel Dev → Type 0 where
  works : (k' : Kernel Dev) → SameTable k k' → Step k k'
  -- The scheduler switches to a runnable task.
  enters : (i : ℕ) (k' : Kernel Dev) → k.current ≡ none → enter_task i k ≡ some k' → Step k k'
  -- A task gives control back to the scheduler, of its own or at a timer interrupt.
  yields :
      (k' : Kernel Dev) (c : Cmd (Kernel Dev) (Unit {0}))
      → task_yield k ≡ switched k' c
      → Step k (leave_task k')
  sleeps :
      (channel lock : ℕ) (k' : Kernel Dev) (c : Cmd (Kernel Dev) (Unit {0}))
      → sleep channel lock k ≡ switched k' c
      → Step k (leave_task k')
  wakes_up : (channel : ℕ) (k' : Kernel Dev) → wakeup channel k ≡ done tt k' → Step k k'
  creates : (entry tid : ℕ) (k' : Kernel Dev) → create_task entry k ≡ done tid k' → Step k k'

-- From a kernel without tasks.
pub data Reach {Dev : Type 0} ⦃metal : Metal Dev⦄ : Kernel Dev → Type 0 where
  start : (k : Kernel Dev) → k.tasks ≡ [] → k.task_count ≡ 0 → k.current ≡ none → Reach k
  later : {k k' : Kernel Dev} → Reach k → Step k k' → Reach k'

-- Runnable, running or sleeping, whatever the flags above the lowest four.
abbrev pub IsOneState : ℕ → Type 0
IsOneState x = (x % 16 ≡ 1) ⊎ (x % 16 ≡ 2) ⊎ (x % 16 ≡ 4)

-- A task of a given place: it is in one state, and runs just if it is current.
pub record IsPlaced (current : Option ℕ) (i state : ℕ) : Type 0 where
  pub one : IsOneState state
  pub only : is_running state ≡ true → current ≡ some i
  pub runs : current ≡ some i → is_running state ≡ true

abbrev pub Placed : Option ℕ → List ℕ → Type 0
Placed current xs = (i x : ℕ) → get_elem? xs i ≡ some x → IsPlaced current i x

-- The ids are different and from 1 to 16, task_count counts the tasks that do not sleep, and the
-- current task, if there is one, is the only one that runs.
pub record Inv {Dev : Type 0} (k : Kernel Dev) : Type 0 where
  pub range : UpTo max_task_count (tids k.tasks)
  pub distinct : Distinct (tids k.tasks)
  pub count : k.task_count ≡ awake k.tasks
  pub placed : Placed k.current (states k.tasks)
  pub inside : (i : ℕ) → k.current ≡ some i → i < length k.tasks
