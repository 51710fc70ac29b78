-- ===== src/Task/Switches.antt =====
-- The switches between the scheduler and a task in kernel/src/task.c keep the invariant of the task table.
use sofie_os.Base.{
  ℕ, ◌%◌, ◌^◌, set-set, ◌<◌, ◌≡◌, refl, sym, subst, ap, ◌∙◌, true, false, some, none, get_elem?,
  set, length, length-set, get_elem?-lt, get_elem?-set_self, some-injective, arith, Option-cases,
  inl, inr,
}
use sofie_os.Pmp.{log_pmp_settings}
use sofie_os.Metal.{Metal}
use sofie_os.Kernel.{Task, Kernel, Cmd, switched, switched-state}
use sofie_os.Task.Flags.{is_sleeping, is_running, is_runnable, set_state}
use sofie_os.Task.State.{set_state_flags}
use sofie_os.Task.Table.{max_task_count}
use sofie_os.Task.Defs.{sleep, task_yield, sched}
use sofie_os.Task.Create.{enter_task, leave_task}
use sofie_os.Task.Count.{awake, sleep-switches}
use sofie_os.Task.Unique.{tids, UpTo, Distinct, tids-set, length-tids}
use sofie_os.Task.Schedule.{SameTable, states, IsOneState, IsPlaced, Placed, Inv}
use sofie_os.Task.Sleep.{asleep, put_to_sleep, sleep_idle, sleep_wild, sleep_switched}
use sofie_os.Task.Placed.{states-set, states-at, awake-same, awake-set, Placed-enter, Placed-leave}
use sofie_os.Task.Invariant.{Inv-IsCounted, not_sleeping}

set_state_mod : (x y : ℕ) → 2 ^ y < 16 → set_state x y % 16 ≡ 2 ^ y
unfolding set_state
set_state_mod x y h = omega arith

module _ {Dev : Type 0} ⦃metal : Metal Dev⦄ where
  -- One task's state and the current task change.
  replaced-Inv :
      (k k' : Kernel Dev) (i : ℕ) (t u : Task)
      → Inv k
      → get_elem? k.tasks i ≡ some t
      → u.tid ≡ t.tid
      → k'.tasks ≡ set k.tasks i u
      → k'.task_count ≡ awake (set k.tasks i u)
      → Placed k'.current (set (states k.tasks) i u.state)
      → ((j : ℕ) → k'.current ≡ some j → j < length k.tasks)
      → Inv k'
  replaced-Inv k k' i t u inv at named tasks count placed inside =
      let ids : tids k'.tasks ≡ tids k.tasks = ap tids tasks ∙ tids-set k.tasks i t u at named in
      record {
        range = subst (λ xs. UpTo max_task_count xs) (sym ids) inv.range;
        distinct = subst (λ xs. Distinct xs) (sym ids) inv.distinct;
        count = count ∙ ap awake (sym tasks);
        placed =
            subst (λ xs. Placed k'.current xs) (sym (ap states tasks ∙ states-set k.tasks i u))
              placed;
        inside = λ j e. omega (arith, inside j e, ap length tasks, length-set k.tasks i u);
      }

  pub works-Inv : (k k' : Kernel Dev) → SameTable k k' → Inv k → Inv k'
  works-Inv k k' same inv = record {
    range = subst (λ xs. UpTo max_task_count xs) (sym same.same_tids) inv.range;
    distinct = subst (λ xs. Distinct xs) (sym same.same_tids) inv.distinct;
    count = same.same_count ∙ inv.count ∙ sym (awake-same k.tasks k'.tasks same.same_states);
    placed = λ i x e.
        subst (λ c. IsPlaced c i x) (sym same.same_current)
          (inv.placed i x (ap (λ xs. get_elem? xs i) (sym same.same_states) ∙ e));
    inside = λ i e. omega (
      arith,
      inv.inside i (sym same.same_current ∙ e),
      length-tids k.tasks,
      length-tids k'.tasks,
      ap length same.same_tids,
    );
  }

  -- What enter_task does where it switches.
  pub enter_task-some :
      (i : ℕ) (k k' : Kernel Dev)
      → enter_task i k ≡ some k'
      → (t : Task) × (get_elem? k.tasks i ≡ some t)
        × (is_runnable t.state ≡ true)
        × (k'.tasks ≡ set k.tasks i (record t { state = set_state t.state 1 }))
        × (k'.current ≡ some i)
        × (k'.task_count ≡ k.task_count)
  unfolding enter_task
  enter_task-some i k k' e = elim (Option-cases (get_elem? k.tasks i)) [
    | inl wild ↦ absurd (ground arith)
    | inr (t, at) ↦ (t, at, ground arith, ground arith, ground arith, ground arith)
  ]

  pub enters-Inv :
      (i : ℕ) (k k' : Kernel Dev) → k.current ≡ none → enter_task i k ≡ some k' → Inv k → Inv k'
  enters-Inv i k k' idle e inv =
      let (t, at, ready, tasks, current, count) = enter_task-some i k k' e in
      let u : Task = record t { state = set_state t.state 1 } in
      replaced-Inv k k' i t u inv at refl tasks
        (count
          ∙ inv.count
          ∙ sym (
              awake-set k.tasks i t u at (
                (set_state_flags t.state 1 (omega arith)).2
                ∙ sym (
                    not_sleeping t.state (inv.placed i t.state (states-at k.tasks i t at)).one
                      (inl ready)))))
        (subst (λ c. Placed c (set (states k.tasks) i u.state)) (sym current)
          (Placed-enter (states k.tasks) i u.state (set_state_mod t.state 1 (omega arith))
            (subst (λ c. Placed c (states k.tasks)) idle inv.placed)))
        (λ j c.
          subst (λ x. x < length k.tasks) (some-injective (sym current ∙ c))
            (get_elem?-lt k.tasks i t at))

  -- The current task gives up the processor, in a state that is not the running one.
  leaves-Inv :
      (k k' : Kernel Dev) (i : ℕ) (t u : Task)
      → Inv k
      → k.current ≡ some i
      → get_elem? k.tasks i ≡ some t
      → u.tid ≡ t.tid
      → IsOneState u.state
      → is_running u.state ≡ false
      → k'.tasks ≡ set k.tasks i u
      → k'.task_count ≡ awake (set k.tasks i u)
      → Inv (leave_task k')
  unfolding leave_task
  leaves-Inv k k' i t u inv cur at named one stop tasks count =
      replaced-Inv k (record k' { current = none }) i t u inv at named tasks count
        (Placed-leave (states k.tasks) i u.state one stop
          (subst (λ c. Placed c (states k.tasks)) cur inv.placed))
        (λ j c. absurd cc)

  -- What task_yield does where it switches.
  pub task_yield-switched :
      (k k' : Kernel Dev) (c : Cmd (Kernel Dev) (Unit {0}))
      → task_yield k ≡ switched k' c
      → (i : ℕ) × (t u : Task) × (k.current ≡ some i)
        × (get_elem? k.tasks i ≡ some t)
        × (u.tid ≡ t.tid)
        × (u.state ≡ set_state t.state 0)
        × (k'.tasks ≡ set (set k.tasks i (record t { state = set_state t.state 0 })) i u)
        × (k'.task_count ≡ k.task_count)
  unfolding task_yield sched
  task_yield-switched k k' c e = elim (Option-cases k.current) [
    | inl idle ↦ absurd (ground arith)
    | inr (i, cur) ↦ elim (Option-cases (get_elem? k.tasks i)) [
      | inl wild ↦ absurd (ground arith)
      | inr (t, at) ↦
          let t1 : Task = record t { state = set_state t.state 0 } in
          let there = get_elem?-set_self k.tasks i t1 (get_elem?-lt k.tasks i t at) in
          (
            i,
            t,
            record t1 { pmp = log_pmp_settings k.pmp t.pmp },
            cur,
            at,
            refl,
            refl,
            ground (arith, there),
            ground (arith, there),
          )
    ]
  ]

  pub yields-Inv :
      (k k' : Kernel Dev) (c : Cmd (Kernel Dev) (Unit {0}))
      → task_yield k ≡ switched k' c
      → Inv k
      → Inv (leave_task k')
  yields-Inv k k' c e inv =
      let (i, t, u, cur, at, named, state, tasks, count) = task_yield-switched k k' c e in
      let t1 : Task = record t { state = set_state t.state 0 } in
      let flags = set_state_flags t.state 0 (omega arith) in
      let up = inv.placed i t.state (states-at k.tasks i t at) in
      let awake_now : is_sleeping u.state ≡ is_sleeping t.state =
        ap is_sleeping state ∙ flags.2 ∙ sym (not_sleeping t.state up.one (inr (up.runs cur))) in
      leaves-Inv k k' i t u inv cur at named
        (inl (ap (λ x. x % 16) state ∙ set_state_mod t.state 0 (omega arith)))
        (ap is_running state ∙ flags.1) (tasks ∙ set-set k.tasks i t1 u)
        (count ∙ inv.count ∙ sym (awake-set k.tasks i t u at awake_now))

  -- What sleep does where it switches.
  pub sleep-current :
      (channel lock : ℕ) (k k' : Kernel Dev) (c : Cmd (Kernel Dev) (Unit {0}))
      → sleep channel lock k ≡ switched k' c
      → (i : ℕ) × (t : Task) × (k.current ≡ some i)
        × (get_elem? k.tasks i ≡ some t)
        × (put_to_sleep channel lock i t k ≡ k')
  sleep-current channel lock k k' c e = elim (Option-cases k.current) [
    | inl idle ↦ absurd (ground (arith, e, sleep_idle channel lock k idle))
    | inr (i, cur) ↦ elim (Option-cases (get_elem? k.tasks i)) [
      | inl wild ↦ absurd (ground (arith, e, sleep_wild channel lock i k cur wild))
      | inr (t, at) ↦
          (i, t, cur, at, switched-state (sym (sleep_switched channel lock i t k cur at) ∙ e))
    ]
  ]

  pub sleeps-Inv :
      (channel lock : ℕ) (k k' : Kernel Dev) (c : Cmd (Kernel Dev) (Unit {0}))
      → sleep channel lock k ≡ switched k' c
      → Inv k
      → Inv (leave_task k')
  sleeps-Inv channel lock k k' c e inv =
      let (i, t, cur, at, same) = sleep-current channel lock k k' c e in
      let up = inv.placed i t.state (states-at k.tasks i t at) in
      let (run, counted, down) =
        sleep-switches channel lock i t k (Inv-IsCounted k inv) cur at
          (not_sleeping t.state up.one (inr (up.runs cur))) in
      leaves-Inv k k' i t (asleep channel t) inv cur at refl
        (inr (inr (set_state_mod t.state 2 (omega arith))))
        (set_state_flags t.state 2 (omega arith)).1 (sym (ap (λ z. z.tasks) same))
        (sym (ap (λ z. z.task_count) same) ∙ counted.count)
