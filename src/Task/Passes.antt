-- ===== src/Task/Passes.antt =====
-- A pass of scheduler in kernel/src/task.c over the whole table.
use sofie_os.Base.{
  ℕ, zero, suc, ◌+◌, ◌≤◌, ◌<◌, ◌≡◌, ◌≢◌, refl, sym, subst, ap, ◌∙◌, true, ◌==◌, some, none, [], ◌∷◌,
  get_elem?, get_elem?-lt, get_elem?-none, some-injective, arith, Option-cases, Bool-cases, inl,
  inr, ==→eq, not-==→ne,
}
use sofie_os.Metal.{Metal}
use sofie_os.Kernel.{Task, Kernel}
use sofie_os.Task.Flags.{is_runnable, set_state}
use sofie_os.Task.Table.{max_task_count}
use sofie_os.Task.Create.{enter_task, leave_task}
use sofie_os.Task.Schedule.{states, Inv, enters}
use sofie_os.Task.Placed.{length-states}
use sofie_os.Task.Woken.{states-back}
use sofie_os.Task.Invariant.{Inv-size}
use sofie_os.Task.Switches.{enter_task-some}
use sofie_os.Task.OneRunning.{Step-Inv}
use sofie_os.Task.Rounds.{scan, IsReadyAt, GivesBack, Visits}
use sofie_os.Task.Turns.{ready-set, TaskRun-keeps, TaskRun-Inv}

module _ {Dev : Type 0} ⦃metal : Metal Dev⦄ (run : ℕ → Kernel Dev → Kernel Dev)
    (gives_back : GivesBack run) where
  scan_end :
      (n i : ℕ) (k : Kernel Dev) → get_elem? k.tasks i ≡ none → scan run (suc n) i k ≡ ([], some k)
  unfolding scan
  scan_end n i k e = ground arith

  scan_skip :
      (n i : ℕ) (t : Task) (k : Kernel Dev)
      → get_elem? k.tasks i ≡ some t
      → enter_task i k ≡ none
      → scan run (suc n) i k ≡ scan run n (suc i) k
  unfolding scan
  scan_skip n i t k at e = ground arith

  scan_enter :
      (n i : ℕ) (t : Task) (k k1 : Kernel Dev)
      → get_elem? k.tasks i ≡ some t
      → enter_task i k ≡ some k1
      → let rest = scan run n (suc i) (leave_task (run i k1)) in
        scan run (suc n) i k ≡ (i ∷ rest.0, rest.1)
  unfolding scan
  scan_enter n i t k k1 at e = ground arith

  -- A task's turn.
  turn :
      (i : ℕ) (k k1 : Kernel Dev)
      → Inv k
      → k.current ≡ none
      → enter_task i k ≡ some k1
      → Inv (leave_task (run i k1))
        × ((leave_task (run i k1)).current ≡ none)
        × ((j : ℕ) → i ≢ j → IsReadyAt j k → IsReadyAt j (leave_task (run i k1)))
  unfolding leave_task
  turn i k k1 inv idle e =
      let (t, at, ready, tasks, current, count) = enter_task-some i k k1 e in
      let inv1 = Step-Inv (enters i k1 idle e) inv in
      let turn_run = gives_back i k1 inv1 current in
      (
        TaskRun-Inv k1 (run i k1) turn_run inv1,
        refl,
        λ j other r.
            TaskRun-keeps i j k1 (run i k1) turn_run inv1 current other
              (ready-set k k1 i (record t { state = set_state t.state 1 }) other tasks r),
      )

  scan-ends :
      (n i : ℕ) (k : Kernel Dev)
      → max_task_count < i + n
      → i ≤ max_task_count
      → Inv k
      → k.current ≡ none
      → (k' : Kernel Dev) × ((scan run n i k).1 ≡ some k') × Inv k' × (k'.current ≡ none)
  scan-ends zero i k fuel low inv idle = absurd (omega arith)
  scan-ends (suc n) i k fuel low inv idle = elim (Option-cases (get_elem? k.tasks i)) [
    | inl e ↦ (k, ap (λ r. r.1) (scan_end n i k e), inv, idle)
    | inr (t, at) ↦
        let next : suc i ≤ max_task_count =
          omega (arith, get_elem?-lt k.tasks i t at, Inv-size k inv) in
        elim (Option-cases (enter_task i k)) [
          | inl e ↦
              let (k', end, inv', idle') = scan-ends n (suc i) k (omega arith) next inv idle in
              (k', ap (λ r. r.1) (scan_skip n i t k at e) ∙ end, inv', idle')
          | inr (k1, e) ↦
              let (inv2, idle2, keeps) = turn i k k1 inv idle e in
              let (k', end, inv', idle') =
                scan-ends n (suc i) (leave_task (run i k1)) (omega arith) next inv2 idle2 in
              (k', ap (λ r. r.1) (scan_enter n i t k k1 at e) ∙ end, inv', idle')
        ]
  ]

  -- A ready task is switched to.
  enter-ready :
      (i : ℕ) (t : Task) (k : Kernel Dev)
      → get_elem? k.tasks i ≡ some t
      → IsReadyAt i k
      → enter_task i k ≢ none
  unfolding enter_task
  enter-ready i t k at r e =
      let (u, at', state) = states-back k.tasks i r.state r.at in
      let ready : is_runnable t.state ≡ true =
        ap (λ (z : Task). is_runnable z.state) (some-injective (sym at ∙ at'))
        ∙ ap is_runnable (sym state)
        ∙ r.ready in
      ground (arith, at, ready, e)

  scan-Visits :
      (n i j : ℕ) (k : Kernel Dev)
      → i ≤ j
      → j < i + n
      → Inv k
      → k.current ≡ none
      → IsReadyAt j k
      → Visits j (scan run n i k).0
  scan-Visits zero i j k low fuel inv idle r = absurd (omega arith)
  scan-Visits (suc n) i j k low fuel inv idle r = elim (Option-cases (get_elem? k.tasks i)) [
    | inl e ↦ absurd (
        omega (
          arith,
          get_elem?-none k.tasks i e,
          length-states k.tasks,
          get_elem?-lt (states k.tasks) j r.state r.at,
        ))
    | inr (t, at) ↦ elim (Option-cases (enter_task i k)) [
      | inl e ↦
          let other : i ≢ j =
            λ same. enter-ready i t k at (subst (λ x. IsReadyAt x k) (sym same) r) e in
          subst (λ x. Visits j x.0) (sym (scan_skip n i t k at e))
            (scan-Visits n (suc i) j k (omega arith) (omega arith) inv idle r)
      | inr (k1, e) ↦
          let (inv2, idle2, keeps) = turn i k k1 inv idle e in
          subst (λ x. Visits j x.0) (sym (scan_enter n i t k k1 at e))
            (elim (Bool-cases (i == j)) [
              | inl same ↦ inl (==→eq i j same)
              | inr other ↦
                  let ne = not-==→ne i j other in
                  inr (
                    scan-Visits n (suc i) j (leave_task (run i k1)) (omega arith) (omega arith) inv2
                      idle2 (keeps j ne r))
            ])
    ]
  ]

  -- If every task that the scheduler switches to gives control back in the end, by task_yield or sleep,
  -- then from any state of the table's invariant where no task is current a pass of the scheduler over
  -- the table comes to its end with fuel for 17 places, in such a state again; and it switches to every
  -- task that is runnable when the pass begins.
  pub pass-turns :
      (k : Kernel Dev)
      → Inv k
      → k.current ≡ none
      → let pass = scan run (suc max_task_count) 0 k in
        ((k' : Kernel Dev) × (pass.1 ≡ some k') × Inv k' × (k'.current ≡ none))
        × ((j : ℕ) → IsReadyAt j k → Visits j pass.0)
  pass-turns k inv idle = (
    scan-ends (suc max_task_count) 0 k (omega arith) (omega arith) inv idle,
    λ j r.
        scan-Visits (suc max_task_count) 0 j k (omega arith)
          (omega (
            arith,
            Inv-size k inv,
            length-states k.tasks,
            get_elem?-lt (states k.tasks) j r.state r.at,
          ))
          inv idle r,
  )
