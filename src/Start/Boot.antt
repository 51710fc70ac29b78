-- ===== src/Start/Boot.antt =====
-- The state in which the scheduler starts.
use sofie_os.Base.{subst, sym, ℕ, ◌+◌, ◌<◌, ◌≡◌, ◌≢◌, refl, true, some, none, List, [], ◌∷◌, arith}
use sofie_os.Word.{word_size, add32, bit_at}
use sofie_os.Memory.{store32}
use sofie_os.Buffer.Order.{IsSorted}
use sofie_os.Metal.{Metal}
use sofie_os.Pmp.{Pmp, pmp_initialization}
use sofie_os.Pmp.Device.{IsReady}
use sofie_os.Pmp.Slots.{InTurn}
use sofie_os.Kernel.{Kernel, Task, done}
use sofie_os.Task.{is_runnable, get_tid, used_tids, first_free, set_state, set_just_allocated}
use sofie_os.Task.Create.{create_task, init_tasks, new_task, sleeplock_init, semaphore_init}
use sofie_os.Umalloc.{init_free_list}
use sofie_os.Umalloc.Calls.{IsServing}
use sofie_os.Start.Defs.{trap_initialization, boot, user_heap_size}

module _ {Dev : Type 0} ⦃metal : Metal Dev⦄ where
  -- Where the six calls of malloc succeed, no buffer has an entry, no task is counted, the heap
  -- ends below 2^32, and the PMP driver initialises its device with no locked region and with slots
  -- to use next that exist, main comes to the scheduler: the whole heap is one free block in a
  -- running kernel, and the only task is the one for real_main, which is runnable and has id 1.
  pub boot-IsServing :
      (real_main node task stack frame bytes entry : ℕ) (pool : List ℕ) (p : Pmp Dev)
      (k : Kernel Dev)
      → k.mallocs ≡ node ∷ task ∷ stack ∷ frame ∷ bytes ∷ entry ∷ pool
      → node ≢ 0
      → task ≢ 0
      → stack ≢ 0
      → frame ≢ 0
      → entry ≢ 0
      → k.buffers ≡ []
      → k.task_count ≡ 0
      → k.layout.user_heap + user_heap_size < word_size
      → pmp_initialization k.layout.stack_begin k.pmp ≡ some p
      → IsReady metal p.dev
      → InTurn p
      → (k' : Kernel Dev) × (t : Task) × (boot real_main k ≡ done 1 k')
        × IsServing k.layout.user_heap (k.layout.user_heap + user_heap_size) k'
        × (k'.free_list ≡ record { address = k.layout.user_heap; length = user_heap_size } ∷ [])
        × (k'.tasks ≡ t ∷ [])
        × (k'.task_count ≡ 1)
        × (is_runnable t.state ≡ true)
        × (t.tid ≡ 1)
        × (t.trapframe.epc ≡ real_main)
  unfolding boot trap_initialization init_tasks init_free_list create_task sleeplock_init
      semaphore_init new_task add32 get_tid used_tids first_free bit_at is_runnable set_state
      set_just_allocated
  boot-IsServing real_main node task stack frame bytes entry pool p k e n1 n2 n3 n4 n6 b c h i r
        turn =
      let t = new_task task 1 stack bytes k.layout.gp k.layout.usertrapret real_main in
      let m1 = store32 (store32 k.mem (task + 68 + 4) 0) (task + 68) 0 in
      let m2 = store32 (store32 m1 (task + 76 + 4) 0) (task + 76) 0 in
      (
        record k {
          privileges = 0;
          mscratch = none;
          tasks = t ∷ [];
          mallocs = pool;
          free_list = record { address = k.layout.user_heap; length = user_heap_size } ∷ [];
          pmp = p;
          mem = m2;
          task_count = 1;
        },
        t,
        ground (arith, e, c, i),
        record {
          fits = h;
          laid_out = (omega arith, omega arith);
          sorted = subst IsSorted (sym b) tt;
          ready = r;
          in_turn = turn;
        },
        refl,
        refl,
        refl,
        refl,
        refl,
        refl,
      )
