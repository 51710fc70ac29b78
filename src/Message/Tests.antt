-- ===== src/Message/Tests.antt =====
-- Runs of post_message and get_message of kernel/src/task.c.
use sofie_os.Base.{suc, ◌+◌, ◌≡◌, inl, refl, List, [], ◌∷◌, ◌++◌, arith}
use sofie_os.Metal.Regs.{Regs, metal_regs}
use sofie_os.Kernel.{Task, Kernel, done}
use sofie_os.Fixture.{first_task, second_task, small_mem, small_kernel}
use sofie_os.Word.{add32, sub32}
use sofie_os.Memory.{load32, store32}
use sofie_os.Task.{get_task_by_id}
use sofie_os.Message.{get_message, post_message}
use sofie_os.Message.Words.{Frame}
use sofie_os.Message.Rest.{Resting}
use sofie_os.Message.Queue.{get_message-takes, post_message-appends}
use sofie_os.Message.Fifo.{Call, post, fetch, calls, calls-fifo}

abbrev posted_task : Task
posted_task = record first_task { message_queue = 7 ∷ 8 ∷ [] }

-- The first task has two messages.
abbrev posted_kernel : Kernel Regs
posted_kernel = record small_kernel {
  tasks = posted_task ∷ second_task ∷ [];
  mem = store32 small_mem 0x204c 2;
}

posted_kernel-Resting : Resting posted_kernel 1 0 0x2000 (7 ∷ 8 ∷ []) 2
unfolding get_task_by_id sofie_os.Task.find_task load32 store32
posted_kernel-Resting = record {
  queued = record { found = refl; task = posted_task; at = refl; address = refl; messages = refl };
  words = record { lock_word = refl; lock_spin = refl; value_word = refl; value_spin = refl };
}

get_message-takes_example :
    (k' : Kernel Regs) × (get_message (suc 0) 1 posted_kernel ≡ done 7 k')
    × Resting k' 1 0 0x2000 (8 ∷ []) (sub32 2 1)
    × Frame 0x2000 posted_kernel.mem k'.mem
    × (k'.mallocs ≡ posted_kernel.mallocs)
get_message-takes_example =
    get_message-takes 0 1 0 0x2000 7 2 (8 ∷ []) posted_kernel posted_kernel-Resting (omega arith)
      (omega arith)

post_message-appends_example :
    let header = sub32 0x1208 8 + 4 in
    (k' : Kernel Regs) × (post_message (suc 0) 1 0x1208 posted_kernel ≡ done tt k')
    × Resting k' 1 0 0x2000 ((7 ∷ 8 ∷ []) ++ 0x1208 ∷ []) (add32 2 1)
    × (load32 k'.mem header ≡ 1)
    × Frame 0x2000 (store32 posted_kernel.mem header 1) k'.mem
    × (k'.mallocs ≡ (0x5100 ∷ []))
post_message-appends_example =
    post_message-appends 0 1 0 0x2000 0x1208 2 0x5000 (7 ∷ 8 ∷ []) (0x5100 ∷ []) posted_kernel
      posted_kernel-Resting refl (omega arith) (omega arith) (inl (unfold sub32 in omega arith))

-- A message is posted behind the two that wait, and two are taken.
abbrev three_calls : List Call
three_calls = fetch ∷ post 0x1208 ∷ fetch ∷ []

calls-fifo_example :
    (k' : Kernel Regs) × (calls 0 1 three_calls posted_kernel ≡ done (7 ∷ 8 ∷ []) k')
    × Resting k' 1 0 0x2000 (0x1208 ∷ []) 1
calls-fifo_example =
    calls-fifo 0 1 0 0x2000 three_calls (7 ∷ 8 ∷ []) (7 ∷ 8 ∷ []) (0x1208 ∷ []) posted_kernel
      posted_kernel-Resting (omega arith) (omega arith, tt)
      (tt, (inl (unfold sub32 in omega arith), (tt, tt))) (omega arith) refl
