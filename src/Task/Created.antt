-- ===== src/Task/Created.antt =====
-- The calls of create_task in kernel/src/task.c that come to an end, taken apart.
use sofie_os.Base.{ℕ, ◌≡◌, refl, some, none, List, [], ◌∷◌, ◌++◌, arith, Option-cases, inl, inr}
use sofie_os.Word.{add32}
use sofie_os.Kernel.{Task, Kernel, done}
use sofie_os.Task.Flags.{set_state, set_just_allocated}
use sofie_os.Task.Table.{get_tid}
use sofie_os.Task.Create.{create_task, new_task, sleeplock_init, semaphore_init}

-- What a call that returns `tid` adds.
pub record Created {Dev : Type 0} (tid : ℕ) (k k' : Kernel Dev) : Type 0 where
  pub task : Task
  pub free_id : get_tid k.tasks ≡ some tid
  pub named : task.tid ≡ tid
  pub state : task.state ≡ 1
  pub added : k'.tasks ≡ k.tasks ++ task ∷ []
  pub counted : k'.task_count ≡ add32 k.task_count 1
  pub same : k'.current ≡ k.current

module _ {Dev : Type 0} where
  out_of_ids :
      (entry tid : ℕ) (k k' : Kernel Dev)
      → get_tid k.tasks ≡ none
      → create_task entry k ≡ done tid k'
      → Created tid k k'
  unfolding create_task
  out_of_ids entry tid k k' e run = absurd (ground arith)

  Created-from :
      (entry tid s : ℕ) (ms : List ℕ) (k k' : Kernel Dev)
      → get_tid k.tasks ≡ some s
      → k.mallocs ≡ ms
      → create_task entry k ≡ done tid k'
      → Created tid k k'
  unfolding create_task sleeplock_init semaphore_init new_task set_state set_just_allocated
  Created-from entry tid s [] k k' f e run = absurd (ground arith)
  Created-from entry tid s (a ∷ []) k k' f e run = absurd (ground arith)
  Created-from entry tid s (a ∷ b ∷ []) k k' f e run = absurd (ground arith)
  Created-from entry tid s (a ∷ b ∷ c ∷ []) k k' f e run = absurd (ground arith)
  Created-from entry tid s (a ∷ b ∷ c ∷ d ∷ []) k k' f e run = absurd (ground arith)
  Created-from entry tid s (a ∷ b ∷ c ∷ d ∷ n ∷ rest) k k' f e run =
      let t = new_task a s b d k.layout.gp k.layout.usertrapret entry in
      record {
        task = t;
        free_id = ground arith;
        named = ground arith;
        state = refl;
        added = ground arith;
        counted = ground arith;
        same = ground arith;
      }

  pub create_task-Created :
      (entry tid : ℕ) (k k' : Kernel Dev) → create_task entry k ≡ done tid k' → Created tid k k'
  create_task-Created entry tid k k' run = elim (Option-cases (get_tid k.tasks)) [
    | inl e ↦ out_of_ids entry tid k k' e run
    | inr (s, e) ↦ Created-from entry tid s k.mallocs k k' e refl run
  ]
