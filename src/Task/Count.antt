-- ===== src/Task/Count.antt =====
-- Sleeping and waking in kernel/src/task.c, and the count of the tasks that do not sleep.
use sofie_os.Base.{
  ℕ, zero, suc, ◌+◌, ◌<◌, ◌≤◌, ◌≡◌, refl, ◌∙◌, ap, some, List, [], ◌∷◌, true, false, if◌then◌else◌,
  get_elem?, set, length, length-set, arith, Bool-cases, inl, inr,
}
use mathlib.Core.Option
use sofie_os.Umalloc.Merge.{add32_fits}
use sofie_os.Word.{sub32_fits, word_size, add32, sub32}
use sofie_os.Memory.{store32}
use sofie_os.Kernel.{Task, Kernel, done, switched, update_current, ◌>>◌}
use sofie_os.Task.Flags.{is_sleeping, set_state, sleeping}
use sofie_os.Task.State.{set_state_flags}
use sofie_os.Task.Table.{max_task_count}
use sofie_os.Task.Defs.{
  sleep, wake, wakes, wake_all, wakeup, spinlock_acquire, spinlock_release, sched,
}

-- The tasks that do not sleep.
unfoldable pub awake : List Task → ℕ
awake [] = 0
awake (t ∷ rest) = (if is_sleeping t.state then 0 else 1) + awake rest

wake-is_sleeping :
    (channel : ℕ) (t : Task)
    → is_sleeping (wake channel t).state ≡ (if wakes channel t then false else is_sleeping t.state)
unfolding wake
wake-is_sleeping channel t = ground (arith, set_state_flags t.state 0)

wake_all-tasks :
    (channel count : ℕ) (l : List Task) (i : ℕ)
    → get_elem? (wake_all channel l count).0 i ≡ Option.map (wake channel) (get_elem? l i)
unfolding wake_all
wake_all-tasks channel count [] i = refl
wake_all-tasks channel count (t ∷ rest) zero = refl
wake_all-tasks channel count (t ∷ rest) (suc i) =
    wake_all-tasks channel (if wakes channel t then add32 count 1 else count) rest i

wake_all-count :
    (channel count : ℕ) (l : List Task)
    → count + length l < word_size
    → (wake_all channel l count).1 + awake l ≡ count + awake (wake_all channel l count).0
unfolding wake_all awake
wake_all-count channel count [] h = refl
wake_all-count channel count (t ∷ rest) h =
    let fits : add32 count 1 ≡ count + 1 = add32_fits count 1 (omega arith) in
    elim (Bool-cases (wakes channel t)) [
      | inl w ↦ rw w (
          ground (
            arith,
            fits,
            w,
            wake-is_sleeping channel t,
            wake_all-count channel (add32 count 1) rest,
          ))
      | inr w ↦
          rw w (ground (arith, w, wake-is_sleeping channel t, wake_all-count channel count rest))
    ]

pub wake_all-length :
    (channel count : ℕ) (l : List Task) → length (wake_all channel l count).0 ≡ length l
unfolding wake_all
wake_all-length channel count [] = refl
wake_all-length channel count (t ∷ rest) =
    ap suc (wake_all-length channel (if wakes channel t then add32 count 1 else count) rest)

-- task_count counts the tasks that do not sleep, and the table is within its limit.
pub record IsCounted {Dev : Type 0} (k : Kernel Dev) : Type 0 where
  pub count : k.task_count ≡ awake k.tasks
  pub size : length k.tasks ≤ max_task_count

pub awake-le : (l : List Task) → awake l ≤ length l
unfolding awake
awake-le [] = omega arith
awake-le (t ∷ rest) = ground (arith, awake-le rest)

awake-set_asleep :
    (l : List Task) (i : ℕ) (t t' : Task)
    → get_elem? l i ≡ some t
    → is_sleeping t.state ≡ false
    → is_sleeping t'.state ≡ true
    → suc (awake (set l i t')) ≡ awake l
unfolding awake
awake-set_asleep [] i t t' e a b = cc
awake-set_asleep (x ∷ rest) zero t t' e a b = ground arith
awake-set_asleep (x ∷ rest) (suc i) t t' e a b = omega (arith, awake-set_asleep rest i t t' e a b)

module _ {Dev : Type 0} where
  -- Where task_count counts the tasks that do not sleep, wakeup applies to every task what its loop
  -- does to one, so that exactly the tasks that sleep on the channel change; task_count goes on
  -- counting the tasks that do not sleep, and nothing else of the state changes.
  pub wakeup-wakes :
      (channel : ℕ) (k : Kernel Dev)
      → IsCounted k
      → (k' : Kernel Dev) × (wakeup channel k ≡ done tt k')
        × ((i : ℕ) → get_elem? k'.tasks i ≡ Option.map (wake channel) (get_elem? k.tasks i))
        × IsCounted k'
        × (k' ≡ record k { tasks = k'.tasks; task_count = k'.task_count })
  unfolding wakeup
  wakeup-wakes channel k c =
      let tasks = (wake_all channel k.tasks k.task_count).0 in
      (
        record k { tasks = tasks; task_count = (wake_all channel k.tasks k.task_count).1 },
        refl,
        wake_all-tasks channel k.task_count k.tasks,
        record {
          count = omega (
            arith,
            c.count,
            c.size,
            wake_all-count channel k.task_count k.tasks,
            awake-le k.tasks,
          );
          size = omega (arith, c.size, wake_all-length channel k.task_count k.tasks);
        },
        refl,
      )

  -- Where task_count counts the tasks that do not sleep, sleep, called by a task that is awake, lets go
  -- of the spinlock, marks the task as sleeping on the channel and hands control to the scheduler in a
  -- state where task_count still counts the tasks that do not sleep. Whenever the task is picked again
  -- it forgets the channel and takes the spinlock.
  pub sleep-switches :
      (channel lock i : ℕ) (t : Task) (k : Kernel Dev)
      → IsCounted k
      → k.current ≡ some i
      → get_elem? k.tasks i ≡ some t
      → is_sleeping t.state ≡ false
      → let t' = record t { sleep_channel = channel; state = set_state t.state sleeping } in
        let k' = record k {
          mem = store32 k.mem lock 0;
          tasks = set k.tasks i t';
          task_count = sub32 k.task_count 1;
        } in
        (sleep channel lock k
          ≡ switched k'
              (do update_current (λ u. record u { sleep_channel = 0 }); spinlock_acquire lock))
        × IsCounted k'
        × (is_sleeping t'.state ≡ true)
  unfolding sleep spinlock_release sched
  sleep-switches channel lock i t k c cur at up =
      let t' = record t { sleep_channel = channel; state = set_state t.state sleeping } in
      let down = (set_state_flags t.state 2 (omega arith)).2 in
      let one_less = awake-set_asleep k.tasks i t t' at up down in
      (
        ground arith,
        record {
          count =
              sub32_fits k.task_count 1 (omega (arith, c.count))
                (omega (arith, c.count, c.size, awake-le k.tasks))
              ∙ omega (arith, one_less, c.count);
          size = omega (arith, c.size, length-set k.tasks i t');
        },
        down,
      )
