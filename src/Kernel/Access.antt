-- ===== src/Kernel/Access.antt =====
-- Commands that read and write one part of the kernel's state.
use sofie_os.Base.{ℕ, Option, none, some, List, [], ◌∷◌, get_elem?, set}
use sofie_os.Memory.{load32, store32}
use sofie_os.Pmp.{Pmp}
use sofie_os.Kernel.Monad.{Run, Cmd, done, panicked, fault}
use sofie_os.Kernel.State.{Task, Kernel}

module _ {Dev : Type 0} where
  abbrev pub get : Cmd (Kernel Dev) (Kernel Dev)
  get k = done k k

  abbrev pub modify : (Kernel Dev → Kernel Dev) → Cmd (Kernel Dev) (Unit {0})
  modify f k = done tt (f k)

  abbrev pub malloc_next : List ℕ → Kernel Dev → Run (Kernel Dev) ℕ
  malloc_next [] k = done 0 k
  malloc_next (a ∷ rest) k = done a (record k { mallocs = rest })

  abbrev pub malloc : Cmd (Kernel Dev) ℕ
  malloc k = malloc_next k.mallocs k

  -- A function of pmp.c over its own state.
  abbrev pub lift_pmp : (Pmp Dev → Option (Pmp Dev)) → Cmd (Kernel Dev) (Unit {0})
  lift_pmp f k = elim (f k.pmp) [ none ↦ panicked k | some p ↦ done tt (record k { pmp = p }) ]

  abbrev pub read_word : ℕ → Cmd (Kernel Dev) ℕ
  read_word a k = done (load32 k.mem a) k

  abbrev pub write_word : ℕ → ℕ → Cmd (Kernel Dev) (Unit {0})
  write_word a v k = done tt (record k { mem = store32 k.mem a v })

  -- A task through a pointer: a fault if there is none.
  abbrev pub task_at : ℕ → Cmd (Kernel Dev) Task
  task_at i k = elim (get_elem? k.tasks i) [ none ↦ fault | some t ↦ done t k ]

  abbrev pub update_task : ℕ → (Task → Task) → Cmd (Kernel Dev) (Unit {0})
  update_task i f k = elim (get_elem? k.tasks i) [
    | none ↦ fault
    | some t ↦ done tt (record k { tasks = set k.tasks i (f t) })
  ]

  -- `current_task->...`
  abbrev pub current_task : Cmd (Kernel Dev) Task
  current_task k = elim k.current [ none ↦ fault | some i ↦ task_at i k ]

  abbrev pub update_current : (Task → Task) → Cmd (Kernel Dev) (Unit {0})
  update_current f k = elim k.current [ none ↦ fault | some i ↦ update_task i f k ]

module _ {Dev : Type 0} {A : Type 0} where
  -- kernel/src/util.c, without the message
  abbrev pub panic : Cmd (Kernel Dev) A
  panic = panicked
