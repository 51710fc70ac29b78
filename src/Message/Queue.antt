-- ===== src/Message/Queue.antt =====
-- post_message and get_message on a queue that no one holds.
use sofie_os.Base.{ℕ, suc, ◌+◌, ◌<◌, ◌≤◌, ◌≡◌, ◌≢◌, ◌⊎◌, refl, ◌∙◌, List, [], ◌∷◌, ◌++◌, set, arith}
use sofie_os.Word.{add32-lt, sub32-lt, word_size, add32, sub32}
use sofie_os.Memory.{load32, store32, load32-store32}
use sofie_os.Metal.{Metal}
use sofie_os.Kernel.{Kernel, done, and_then}
use sofie_os.Umalloc.{change_owner}
use sofie_os.Message.{add_list_node, take_message, get_message, post_message}
use sofie_os.Message.Words.{
  Frame, lock_section, sema_section, section_at, woken, sleeplock_acquire_free,
  sleeplock_release_free, semaphore_post_free, semaphore_wait_free,
}
use sofie_os.Message.Rest.{
  wake-HasQueue, set-HasQueue, load32-Frame, Resting, store_header-QueueWords, store_header-Frame,
}

module _ {Dev : Type 0} where
  -- From a queue at rest that holds a message, and with a positive semaphore, get_message returns the
  -- oldest message without sleeping and takes it off; the semaphore counts down, the queue is at rest
  -- again, and no memory outside its words changes. It allocates nothing.
  pub get_message-takes :
      (rounds tid i a message value : ℕ) (rest : List ℕ) (k : Kernel Dev)
      → Resting k tid i a (message ∷ rest) value
      → value ≢ 0
      → value < word_size
      → (k' : Kernel Dev) × (get_message (suc rounds) tid k ≡ done message k')
        × Resting k' tid i a rest (sub32 value 1)
        × Frame a k.mem k'.mem
        × (k'.mallocs ≡ k.mallocs)
  unfolding get_message take_message
  get_message-takes rounds tid i a message value rest k r positive small =
      let m1 = section_at (a + 76) (sub32 value 1) k.mem in
      let (w1, f1) = sema_section a (sub32 value 1) 0 value k.mem (sub32-lt value 1) r.words in
      let m2 = section_at (a + 68) 1 m1 in
      let (w2, f2) = lock_section a 1 0 (sub32 value 1) m1 (omega arith) w1 in
      let m3 = section_at (a + 68) 0 m2 in
      let (w3, f3) = lock_section a 0 1 (sub32 value 1) m2 (omega arith) w2 in
      let e1 =
        semaphore_wait_free rounds (a + 76) value k r.words.value_word positive
          r.words.value_spin in
      let e2 =
        sleeplock_acquire_free rounds (a + 68) (record k { mem = m1 }) w1.lock_word w1.lock_spin in
      let q = set-HasQueue tid i a (message ∷ rest) rest k.tasks r.queued in
      let k2 = record k {
        mem = m2;
        tasks = set k.tasks i (record r.queued.task { message_queue = rest });
      } in
      let e3 = sleeplock_release_free (a + 68) k2 w2.lock_spin in
      (
        woken (a + 68) m3 k2,
        ground (arith, e1, e2, e3),
        record { queued = wake-HasQueue (a + 68) tid i a k.task_count rest _ q; words = w3 },
        λ x o. f3 x o ∙ f2 x o ∙ f1 x o,
        refl,
      )

module _ {Dev : Type 0} ⦃metal : Metal Dev⦄ where
  -- Where malloc succeeds, the receiver's id fits in 32 bits and the message's header lies outside
  -- the queue's words, post_message to a queue at rest succeeds without sleeping: the message comes
  -- after all others, its header names the receiver as owner, the semaphore counts up, the queue is
  -- at rest again, and no other memory changes. It calls malloc once.
  pub post_message-appends :
      (rounds tid i a msg value m : ℕ) (queue pool : List ℕ) (k : Kernel Dev)
      → Resting k tid i a queue value
      → k.mallocs ≡ m ∷ pool
      → m ≢ 0
      → tid < word_size
      → let header = sub32 msg 8 + 4 in
        (header + 4 ≤ a + 68) ⊎ (a + 84 ≤ header)
        → (k' : Kernel Dev) × (post_message (suc rounds) tid msg k ≡ done tt k')
          × Resting k' tid i a (queue ++ msg ∷ []) (add32 value 1)
          × (load32 k'.mem header ≡ tid)
          × Frame a (store32 k.mem header tid) k'.mem
          × (k'.mallocs ≡ pool)
  unfolding post_message change_owner add_list_node
  post_message-appends rounds tid i a msg value m queue pool k r mallocs got small apart =
      let header = sub32 msg 8 + 4 in
      let m1 = section_at (a + 68) 1 k.mem in
      let (w1, f1) = lock_section a 1 0 value k.mem (omega arith) r.words in
      let e1 = sleeplock_acquire_free rounds (a + 68) k r.words.lock_word r.words.lock_spin in
      let m2 = store32 m1 header tid in
      let w2 = store_header-QueueWords a 1 value header tid m1 apart w1 in
      let new = queue ++ msg ∷ [] in
      let q = set-HasQueue tid i a queue new k.tasks r.queued in
      let k2 = record k {
        mem = m2;
        mallocs = pool;
        tasks = set k.tasks i (record r.queued.task { message_queue = new });
      } in
      let (w3, f3) = sema_section a (add32 value 1) 1 value m2 (add32-lt value 1) w2 in
      let m3 = section_at (a + 76) (add32 value 1) m2 in
      let e3 = semaphore_post_free (a + 76) value k2 w2.value_word w2.value_spin in
      let k3 = woken (a + 76) m3 k2 in
      let (w4, f4) = lock_section a 0 1 (add32 value 1) m3 (omega arith) w3 in
      let m4 = section_at (a + 68) 0 m3 in
      let e4 = sleeplock_release_free (a + 68) k3 w3.lock_spin in
      let q3 = wake-HasQueue (a + 76) tid i a k.task_count new k2.tasks q in
      (
        woken (a + 68) m4 k3,
        ground (arith, e1, e3, e4),
        record {
          queued = wake-HasQueue (a + 68) tid i a k3.task_count new k3.tasks q3;
          words = w4;
        },
        load32-Frame a header m3 m4 f4 apart
            ∙ load32-Frame a header m2 m3 f3 apart
            ∙ load32-store32 m1 header tid small,
        λ x o. f4 x o ∙ f3 x o ∙ store_header-Frame a header tid x k.mem m1 f1 o,
        refl,
      )

  -- On an empty queue at rest, under the conditions of post_message-appends, a message that is posted
  -- is what get_message then returns, and the queue is empty and at rest again with its semaphore at 0;
  -- the message's header names the receiver.
  pub post-get :
      (rounds rounds' tid i a msg m : ℕ) (pool : List ℕ) (k : Kernel Dev)
      → Resting k tid i a [] 0
      → k.mallocs ≡ m ∷ pool
      → m ≢ 0
      → tid < word_size
      → let header = sub32 msg 8 + 4 in
        (header + 4 ≤ a + 68) ⊎ (a + 84 ≤ header)
        → (k' : Kernel Dev) × (and_then
              (post_message (suc rounds) tid msg k)
              (λ _. get_message (suc rounds') tid)
            ≡ done msg k')
          × Resting k' tid i a [] 0
          × (load32 k'.mem header ≡ tid)
  unfolding add32 sub32
  post-get rounds rounds' tid i a msg m pool k r mallocs got small apart =
      let (k1, e1, r1, owner, f1, supply) =
        post_message-appends rounds tid i a msg 0 m [] pool k r mallocs got small apart in
      let (k2, e2, r2, f2, same) =
        get_message-takes rounds' tid i a msg 1 [] k1 r1 (omega arith) (omega arith) in
      (k2, rw e1 e2, r2, load32-Frame a (sub32 msg 8 + 4) k1.mem k2.mem f2 apart ∙ owner)
