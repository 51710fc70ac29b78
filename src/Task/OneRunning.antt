-- ===== src/Task/OneRunning.antt =====
-- Which tasks of kernel/src/task.c run, in every state that the scheduler and the calls can reach.
use sofie_os.Base.{
  ℕ, ◌≤◌, ◌≡◌, sym, subst, ap, ◌∙◌, true, some, none, [], get_elem?, length, some-injective, arith,
}
use sofie_os.Metal.{Metal}
use sofie_os.Kernel.{Task, Kernel}
use sofie_os.Task.Flags.{is_running}
use sofie_os.Task.Table.{max_task_count}
use sofie_os.Task.Count.{awake}
use sofie_os.Task.Unique.{tids, UpTo, Distinct}
use sofie_os.Task.Schedule.{
  Reach, start, later, Step, works, enters, yields, sleeps, wakes_up, creates, states, Placed, Inv,
}
use sofie_os.Task.Placed.{states-at}
use sofie_os.Task.Invariant.{Inv-size}
use sofie_os.Task.Switches.{works-Inv, enters-Inv, yields-Inv, sleeps-Inv}
use sofie_os.Task.Additions.{wakes-Inv, creates-Inv}

module _ {Dev : Type 0} ⦃metal : Metal Dev⦄ where
  pub Step-Inv : {k k' : Kernel Dev} → Step k k' → Inv k → Inv k'
  Step-Inv {k} {k'} (works k1 same) inv = works-Inv k k' same inv
  Step-Inv {k} {k'} (enters i k1 idle e) inv = enters-Inv i k k' idle e inv
  Step-Inv {k} (yields k1 c e) inv = yields-Inv k k1 c e inv
  Step-Inv {k} (sleeps channel lock k1 c e) inv = sleeps-Inv channel lock k k1 c e inv
  Step-Inv {k} {k'} (wakes_up channel k1 e) inv = wakes-Inv channel k k' e inv
  Step-Inv {k} {k'} (creates entry tid k1 e) inv = creates-Inv entry tid k k' e inv

  empty_Inv : (k : Kernel Dev) → k.tasks ≡ [] → k.task_count ≡ 0 → k.current ≡ none → Inv k
  unfolding tids awake states
  empty_Inv k empty none_counted idle = record {
    range = subst (λ l. UpTo max_task_count (tids l)) (sym empty) tt;
    distinct = subst (λ l. Distinct (tids l)) (sym empty) tt;
    count = none_counted ∙ ap awake (sym empty);
    placed = subst (λ l. Placed k.current (states l)) (sym empty) (λ i x e. absurd cc);
    inside = λ i c. absurd (ground (arith, idle, c));
  }

  pub Reach-Inv : {k : Kernel Dev} → Reach k → Inv k
  Reach-Inv (start k empty none_counted idle) = empty_Inv k empty none_counted idle
  Reach-Inv (later r st) = Step-Inv st (Reach-Inv r)

  -- In every state that the scheduler and the calls of task_yield, sleep, wakeup and create_task can
  -- reach from an empty table, in any order and with any changes between that leave the ids, the
  -- states, the count and the current task: at most one task is marked as running, and it is the
  -- current one; task_count counts the tasks that do not sleep; the ids are different and from 1 to 16,
  -- and so there are at most 16 tasks.
  pub one_running :
      (k : Kernel Dev)
      → Reach k
      → ((i j : ℕ) (t u : Task)
          → get_elem? k.tasks i ≡ some t
          → get_elem? k.tasks j ≡ some u
          → is_running t.state ≡ true
          → is_running u.state ≡ true
          → (i ≡ j) × (k.current ≡ some i))
        × (k.task_count ≡ awake k.tasks)
        × Distinct (tids k.tasks)
        × UpTo max_task_count (tids k.tasks)
        × (length k.tasks ≤ max_task_count)
  one_running k r =
      let inv = Reach-Inv r in
      (
        λ i j t u at at' runs runs'.
            let here = (inv.placed i t.state (states-at k.tasks i t at)).only runs in
            let here' = (inv.placed j u.state (states-at k.tasks j u at')).only runs' in
            (some-injective (sym here ∙ here'), here),
        inv.count,
        inv.distinct,
        inv.range,
        Inv-size k inv,
      )
