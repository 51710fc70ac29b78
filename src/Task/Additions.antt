-- ===== src/Task/Additions.antt =====
-- wakeup and create_task of kernel/src/task.c keep the invariant of the task table.
use sofie_os.Base.{
  ℕ, ◌+◌, ◌≡◌, refl, sym, subst, ap, ◌∙◌, false, List, [], ◌∷◌, ◌++◌, get_elem?, length,
  length-append, some-injective, All-append, arith, Option-cases, inl, inr, Option,
}
use mathlib.Core.Option
use sofie_os.Umalloc.Merge.{add32_fits}
use sofie_os.Metal.{Metal}
use sofie_os.Kernel.{Task, Kernel, done, done-state}
use sofie_os.Task.Flags.{is_sleeping}
use sofie_os.Task.Table.{max_task_count}
use sofie_os.Task.Ids.{get_tid-some}
use sofie_os.Task.Defs.{wake, wakeup}
use sofie_os.Task.Create.{create_task}
use sofie_os.Task.Created.{create_task-Created}
use sofie_os.Task.Count.{awake, awake-le, wakeup-wakes}
use sofie_os.Task.Unique.{
  tids, UpTo, Distinct, tids-InRange, tids-fresh, tids-append, length-tids, Distinct-append,
}
use sofie_os.Task.Schedule.{states, IsPlaced, Placed, Inv}
use sofie_os.Task.Placed.{length-states, states-append, states-at, awake-append}
use sofie_os.Task.Woken.{states-back, tids-wake_all, IsPlaced-wake, Placed-append}
use sofie_os.Task.Invariant.{Inv-size, Inv-IsCounted}

Placed-wakeup :
    (channel : ℕ) (current : Option ℕ) (l l' : List Task)
    → ((i : ℕ) → get_elem? l' i ≡ Option.map (wake channel) (get_elem? l i))
    → Placed current (states l)
    → Placed current (states l')
Placed-wakeup channel current l l' tasks p i x e =
    let (u, at, same) = states-back l' i x e in
    elim (Option-cases (get_elem? l i)) [
      | inl missing ↦ absurd (ground (arith, tasks i, at, missing))
      | inr (t, here) ↦
          let woken : wake channel t ≡ u =
            some-injective (sym (ground (arith, tasks i, at, here))) in
          subst (λ y. IsPlaced current i y) (ap (λ z. z.state) woken ∙ sym same)
            (IsPlaced-wake current channel i t (p i t.state (states-at l i t here)))
    ]

tids-wakeup :
    {Dev : Type 0} (channel : ℕ) (k k' : Kernel Dev)
    → wakeup channel k ≡ done tt k'
    → tids k'.tasks ≡ tids k.tasks
unfolding wakeup
tids-wakeup channel k k' run =
    ap (λ (z : Kernel _). tids z.tasks) (sym (done-state tt tt _ k' run))
    ∙ tids-wake_all channel k.task_count k.tasks

new_awake : is_sleeping 1 ≡ false
unfolding is_sleeping
new_awake = refl

module _ {Dev : Type 0} ⦃metal : Metal Dev⦄ where
  pub wakes-Inv : (channel : ℕ) (k k' : Kernel Dev) → wakeup channel k ≡ done tt k' → Inv k → Inv k'
  wakes-Inv channel k k' run inv =
      let (k2, run', tasks, counted, same) = wakeup-wakes channel k (Inv-IsCounted k inv) in
      let end : k2 ≡ k' = done-state tt tt k2 k' (sym run' ∙ run) in
      let ids = tids-wakeup channel k k' run in
      let current : k'.current ≡ k.current = ap (λ z. z.current) (sym end ∙ same) in
      record {
        range = subst (λ xs. UpTo max_task_count xs) (sym ids) inv.range;
        distinct = subst (λ xs. Distinct xs) (sym ids) inv.distinct;
        count = subst (λ (z : Kernel Dev). z.task_count ≡ awake z.tasks) end counted.count;
        placed =
            subst (λ c. Placed c (states k'.tasks)) (sym current)
              (Placed-wakeup channel k.current k.tasks k'.tasks
                (λ i. ap (λ (z : Kernel Dev). get_elem? z.tasks i) (sym end) ∙ tasks i) inv.placed);
        inside = λ i c. omega (
          arith,
          inv.inside i (sym current ∙ c),
          length-tids k.tasks,
          length-tids k'.tasks,
          ap length ids,
        );
      }

  pub creates-Inv :
      (entry tid : ℕ) (k k' : Kernel Dev) → create_task entry k ≡ done tid k' → Inv k → Inv k'
  creates-Inv entry tid k k' run inv =
      let new = create_task-Created entry tid k k' run in
      let (low, high, fresh, least) =
        get_tid-some k.tasks tid (tids-InRange k.tasks inv.range) new.free_id in
      let u = new.task in
      let awake_new : is_sleeping u.state ≡ false =
        subst (λ x. is_sleeping x ≡ false) (sym new.state) new_awake in
      let ids : tids k'.tasks ≡ tids k.tasks ++ tid ∷ [] =
        ap tids new.added ∙ tids-append k.tasks u ∙ ap (λ x. tids k.tasks ++ x ∷ []) new.named in
      let more : length k'.tasks ≡ length k.tasks + 1 =
        ap length new.added ∙ length-append k.tasks (u ∷ []) in
      record {
        range =
            subst (λ xs. UpTo max_task_count xs) (sym ids)
              (All-append _ (tids k.tasks) (tid ∷ []) inv.range ((low, high), tt));
        distinct =
            subst (λ xs. Distinct xs) (sym ids)
              (Distinct-append tid (tids k.tasks) inv.distinct (tids-fresh tid k.tasks fresh));
        count =
            new.counted
            ∙ add32_fits k.task_count 1 (omega (arith, inv.count, awake-le k.tasks, Inv-size k inv))
            ∙ omega (arith, inv.count, awake-append k.tasks u awake_new, ap awake new.added);
        placed =
            subst (λ c. Placed c (states k'.tasks)) (sym new.same)
              (subst (λ xs. Placed k.current xs)
                (sym (ap states new.added ∙ states-append k.tasks u))
                (Placed-append k.current (states k.tasks) u.state new.state
                  (λ c. omega (arith, inv.inside _ c, length-states k.tasks)) inv.placed));
        inside = λ i c. omega (arith, inv.inside i (sym new.same ∙ c), more);
      }
