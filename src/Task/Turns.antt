-- ===== src/Task/Turns.antt =====
-- Every runnable task gets its turn in a pass of scheduler in kernel/src/task.c.
use sofie_os.Base.{
  ℕ, zero, suc, ◌≡◌, ◌≢◌, set-set, sym, subst, ap, ◌∙◌, true, some, List, [], ◌∷◌, ◌++◌, get_elem?,
  set, get_elem?-set_ne, some-injective, arith,
}
use mathlib.Core.Option
use sofie_os.Metal.{Metal}
use sofie_os.Kernel.{Task, Kernel, done, done-state}
use sofie_os.Task.Flags.{is_runnable, set_state}
use sofie_os.Task.State.{set_state_flags}
use sofie_os.Task.Defs.{wake, wakeup}
use sofie_os.Task.Sleep.{asleep}
use sofie_os.Task.Create.{create_task, leave_task}
use sofie_os.Task.Created.{create_task-Created}
use sofie_os.Task.Count.{wakeup-wakes}
use sofie_os.Task.Schedule.{SameTable, states, Inv, works, yields, sleeps, wakes_up, creates}
use sofie_os.Task.Placed.{states-set, states-append, states-at}
use sofie_os.Task.Woken.{states-back}
use sofie_os.Task.Invariant.{Inv-IsCounted}
use sofie_os.Task.Switches.{task_yield-switched, sleep-current}
use sofie_os.Task.OneRunning.{Step-Inv}
use sofie_os.Task.Rounds.{
  TaskRun, yields_back, sleeps_back, works_on, wakes_on, creates_on, IsReadyAt,
}

wake-is_runnable :
    (channel : ℕ) (t : Task)
    → is_runnable t.state ≡ true
    → is_runnable (wake channel t).state ≡ true
unfolding wake
wake-is_runnable channel t e = ground (arith, e, set_state_flags t.state 0 (omega arith))

get_elem?-append :
    {A : Type 0} (xs ys : List A) (i : ℕ) (a : A)
    → get_elem? xs i ≡ some a
    → get_elem? (xs ++ ys) i ≡ some a
get_elem?-append [] ys i a e = absurd cc
get_elem?-append (x ∷ xs) ys zero a e = e
get_elem?-append (x ∷ xs) ys (suc i) a e = get_elem?-append xs ys i a e

module _ {Dev : Type 0} {j : ℕ} where
  pub ready-set :
      (k k' : Kernel Dev) (i : ℕ) (u : Task)
      → i ≢ j
      → k'.tasks ≡ set k.tasks i u
      → IsReadyAt j k
      → IsReadyAt j k'
  ready-set k k' i u other tasks r = record {
    state = r.state;
    at =
        ap (λ l. get_elem? (states l) j) tasks
        ∙ ap (λ xs. get_elem? xs j) (states-set k.tasks i u)
        ∙ get_elem?-set_ne (states k.tasks) u.state other
        ∙ r.at;
    ready = r.ready;
  }

  ready-works : (k k' : Kernel Dev) → SameTable k k' → IsReadyAt j k → IsReadyAt j k'
  ready-works k k' same r = record {
    state = r.state;
    at = ap (λ xs. get_elem? xs j) same.same_states ∙ r.at;
    ready = r.ready;
  }

  ready-creates :
      (entry tid : ℕ) (k k' : Kernel Dev)
      → create_task entry k ≡ done tid k'
      → IsReadyAt j k
      → IsReadyAt j k'
  ready-creates entry tid k k' run r =
      let new = create_task-Created entry tid k k' run in
      record {
        state = r.state;
        at =
            ap (λ l. get_elem? (states l) j) new.added
            ∙ ap (λ xs. get_elem? xs j) (states-append k.tasks new.task)
            ∙ get_elem?-append (states k.tasks) (new.task.state ∷ []) j r.state r.at;
        ready = r.ready;
      }

  ready-wakes :
      (channel : ℕ) (k k' : Kernel Dev)
      → Inv k
      → wakeup channel k ≡ done tt k'
      → IsReadyAt j k
      → IsReadyAt j k'
  ready-wakes channel k k' inv run r =
      let (k2, run', tasks, counted, same) = wakeup-wakes channel k (Inv-IsCounted k inv) in
      let end : k2 ≡ k' = done-state tt tt k2 k' (sym run' ∙ run) in
      let (t, at, state) = states-back k.tasks j r.state r.at in
      record {
        state = (wake channel t).state;
        at = states-at k'.tasks j (wake channel t) (
            ap (λ z. get_elem? z.tasks j) (sym end)
            ∙ tasks j
            ∙ ap (λ o. Option.map (wake channel) o) at);
        ready = wake-is_runnable channel t (ap is_runnable (sym state) ∙ r.ready);
      }

module _ {Dev : Type 0} ⦃metal : Metal Dev⦄ where
  -- What a task does before it gives control back keeps the invariant, and leaves every other runnable task
  -- runnable.
  pub TaskRun-keeps :
      (i j : ℕ) (k k' : Kernel Dev)
      → TaskRun k k'
      → Inv k
      → k.current ≡ some i
      → i ≢ j
      → IsReadyAt j k
      → IsReadyAt j (leave_task k')
  unfolding leave_task
  TaskRun-keeps i j k k' (yields_back k0 k1 c e) inv cur other r =
      let (p, t, u, here, at, named, state, tasks, count) = task_yield-switched k k' c e in
      let p_other : p ≢ j = subst (λ x. x ≢ j) (some-injective (sym cur ∙ here)) other in
      let t1 : Task = record t { state = set_state t.state 0 } in
      ready-set k (leave_task k') p u p_other (tasks ∙ set-set k.tasks p t1 u) r
  TaskRun-keeps i j k k' (sleeps_back channel lock k0 k1 c e) inv cur other r =
      let (p, t, here, at, same) = sleep-current channel lock k k' c e in
      let p_other : p ≢ j = subst (λ x. x ≢ j) (some-injective (sym cur ∙ here)) other in
      ready-set k (leave_task k') p (asleep channel t) p_other (sym (ap (λ z. z.tasks) same)) r
  TaskRun-keeps i j k k' (works_on k0 k1 k2 same run) inv cur other r =
      TaskRun-keeps i j k1 k' run (Step-Inv (works k1 same) inv) (same.same_current ∙ cur) other
        (ready-works k k1 same r)
  TaskRun-keeps i j k k' (wakes_on channel k0 k1 k2 e run) inv cur other r =
      let (w, run', tasks, counted, same) = wakeup-wakes channel k (Inv-IsCounted k inv) in
      let end : w ≡ k1 = done-state tt tt w k1 (sym run' ∙ e) in
      TaskRun-keeps i j k1 k' run (Step-Inv (wakes_up channel k1 e) inv)
        (ap (λ z. z.current) (sym end ∙ same) ∙ cur) other (ready-wakes channel k k1 inv e r)
  TaskRun-keeps i j k k' (creates_on entry tid k0 k1 k2 e run) inv cur other r =
      TaskRun-keeps i j k1 k' run (Step-Inv (creates entry tid k1 e) inv)
        ((create_task-Created entry tid k k1 e).same ∙ cur) other (ready-creates entry tid k k1 e r)

  pub TaskRun-Inv : (k k' : Kernel Dev) → TaskRun k k' → Inv k → Inv (leave_task k')
  TaskRun-Inv k k' (yields_back k0 k1 c e) inv = Step-Inv (yields k' c e) inv
  TaskRun-Inv k k' (sleeps_back channel lock k0 k1 c e) inv =
      Step-Inv (sleeps channel lock k' c e) inv
  TaskRun-Inv k k' (works_on k0 k1 k2 same run) inv =
      TaskRun-Inv k1 k' run (Step-Inv (works k1 same) inv)
  TaskRun-Inv k k' (wakes_on channel k0 k1 k2 e run) inv =
      TaskRun-Inv k1 k' run (Step-Inv (wakes_up channel k1 e) inv)
  TaskRun-Inv k k' (creates_on entry tid k0 k1 k2 e run) inv =
      TaskRun-Inv k1 k' run (Step-Inv (creates entry tid k1 e) inv)
