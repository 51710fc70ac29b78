-- ===== src/Task/Rounds.antt =====
-- The loop over the task table of scheduler in kernel/src/task.c, with what tasks do between two switches.
use sofie_os.Base.{ℕ, zero, suc, ◌≡◌, ◌⊎◌, true, Option, some, none, List, [], ◌∷◌, get_elem?}
use sofie_os.Metal.{Metal}
use sofie_os.Kernel.{Kernel, Cmd, done, switched}
use sofie_os.Task.Flags.{is_runnable}
use sofie_os.Task.Defs.{sleep, wakeup, task_yield}
use sofie_os.Task.Create.{create_task, enter_task, leave_task}
use sofie_os.Task.Schedule.{SameTable, states, Inv}

module _ {Dev : Type 0} ⦃metal : Metal Dev⦄ where
  -- A pass over the table from the place `i` on, with fuel for `n` places: the places of the tasks that
  -- are switched to, in order, and the state at the end of the table, or `none` if the fuel runs out.
  -- `run i` is what happens from the switch to the task at `i` until control comes back.
  unfoldable pub scan :
      (ℕ → Kernel Dev → Kernel Dev) → ℕ → ℕ → Kernel Dev → List ℕ × Option (Kernel Dev)
  scan run zero i k = ([], none)
  scan run (suc n) i k = elim (get_elem? k.tasks i) [
    | none ↦ ([], some k)
    | some t ↦ elim (enter_task i k) [
      | none ↦ scan run n (suc i) k
      | some k1 ↦
          let (entered, end) = scan run n (suc i) (leave_task (run i k1)) in (i ∷ entered, end)
    ]
  ]

-- From a state where a task is current to one where it has given control back: it works, wakes others
-- and creates tasks, and at last yields or sleeps.
pub data TaskRun {Dev : Type 0} ⦃metal : Metal Dev⦄ : Kernel Dev → Kernel Dev → Type 0 where
  yields_back :
      (k k' : Kernel Dev) (c : Cmd (Kernel Dev) (Unit {0}))
      → task_yield k ≡ switched k' c
      → TaskRun k k'
  sleeps_back :
      (channel lock : ℕ) (k k' : Kernel Dev) (c : Cmd (Kernel Dev) (Unit {0}))
      → sleep channel lock k ≡ switched k' c
      → TaskRun k k'
  works_on : (k k1 k' : Kernel Dev) → SameTable k k1 → TaskRun k1 k' → TaskRun k k'
  wakes_on :
      (channel : ℕ) (k k1 k' : Kernel Dev)
      → wakeup channel k ≡ done tt k1
      → TaskRun k1 k'
      → TaskRun k k'
  creates_on :
      (entry tid : ℕ) (k k1 k' : Kernel Dev)
      → create_task entry k ≡ done tid k1
      → TaskRun k1 k'
      → TaskRun k k'

-- The task at the place `j` is runnable.
pub record IsReadyAt {Dev : Type 0} (j : ℕ) (k : Kernel Dev) : Type 0 where
  pub state : ℕ
  pub at : get_elem? (states k.tasks) j ≡ some state
  pub ready : is_runnable state ≡ true

module _ {Dev : Type 0} ⦃metal : Metal Dev⦄ where
  -- Every task that the scheduler switches to gives control back.
  abbrev pub GivesBack : (ℕ → Kernel Dev → Kernel Dev) → Type 0
  GivesBack run = (i : ℕ) (k : Kernel Dev) → Inv k → k.current ≡ some i → TaskRun k (run i k)

-- The place is among those that were switched to.
abbrev pub Visits : ℕ → List ℕ → Type 0
Visits j [] = ⊥
Visits j (i ∷ rest) = (i ≡ j) ⊎ Visits j rest
