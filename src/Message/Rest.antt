-- ===== src/Message/Rest.antt =====
-- A message queue that no one holds, and what waking tasks and storing a header leave of it.
use sofie_os.Base.{
  ℕ, zero, suc, ◌+◌, ◌<◌, ◌≤◌, ◌≡◌, ◌⊎◌, refl, ◌∙◌, some, List, [], ◌∷◌, get_elem?, set, arith,
  if◌then◌else◌,
}
use sofie_os.Word.{add32}
use sofie_os.Memory.{Mem, load32, store32, load32-store32_apart}
use sofie_os.Kernel.{Task, Kernel}
use sofie_os.Task.{wakes, wake, wake_all, find_task, get_task_by_id}
use sofie_os.Message.Words.{QueueWords, Frame, load32-frame}

-- The id names the task at a place of the table, whose struct lies at `a` and whose queue holds the
-- messages.
pub record HasQueue (tasks : List Task) (tid i a : ℕ) (queue : List ℕ) : Type 0 where
  pub found : get_task_by_id tid tasks ≡ some i
  pub task : Task
  pub at : get_elem? tasks i ≡ some task
  pub address : task.address ≡ a
  pub messages : task.message_queue ≡ queue

wake-tid : (channel : ℕ) (t : Task) → (wake channel t).tid ≡ t.tid
unfolding wake
wake-tid channel t = ground arith

find_task-wake_all :
    (tid channel i : ℕ) (l : List Task) (n : ℕ)
    → find_task tid i (wake_all channel l n).0 ≡ find_task tid i l
unfolding find_task wake_all
find_task-wake_all tid channel i [] n = refl
find_task-wake_all tid channel i (t ∷ l) n =
    rw
      (
        wake-tid channel t,
        find_task-wake_all tid channel (i + 1) l (if wakes channel t then add32 n 1 else n),
      )
      refl

get_elem?-wake_all :
    (channel i : ℕ) (l : List Task) (n : ℕ) (t : Task)
    → get_elem? l i ≡ some t
    → get_elem? (wake_all channel l n).0 i ≡ some (wake channel t)
unfolding wake_all
get_elem?-wake_all channel i [] n t e = ground arith
get_elem?-wake_all channel zero (u ∷ l) n t e = ground arith
get_elem?-wake_all channel (suc i) (u ∷ l) n t e =
    get_elem?-wake_all channel i l (if wakes channel u then add32 n 1 else n) t e

pub wake-HasQueue :
    (channel tid i a n : ℕ) (queue : List ℕ) (l : List Task)
    → HasQueue l tid i a queue
    → HasQueue (wake_all channel l n).0 tid i a queue
unfolding get_task_by_id wake
wake-HasQueue channel tid i a n queue l q = record {
  found = find_task-wake_all tid channel 0 l n ∙ q.found;
  task = wake channel q.task;
  at = get_elem?-wake_all channel i l n q.task q.at;
  address = ground (arith, q.address);
  messages = ground (arith, q.messages);
}

find_task-set :
    (tid i j : ℕ) (l : List Task) (t : Task) (queue : List ℕ)
    → get_elem? l j ≡ some t
    → find_task tid i (set l j (record t { message_queue = queue })) ≡ find_task tid i l
unfolding find_task
find_task-set tid i j [] t queue e = refl
find_task-set tid i zero (u ∷ l) t queue e = ground arith
find_task-set tid i (suc j) (u ∷ l) t queue e =
    ground (arith, find_task-set tid (i + 1) j l t queue)

get_elem?-set :
    (i : ℕ) (l : List Task) (t u : Task) → get_elem? l i ≡ some t → get_elem? (set l i u) i ≡ some u
get_elem?-set i [] t u e = ground arith
get_elem?-set zero (v ∷ l) t u e = refl
get_elem?-set (suc i) (v ∷ l) t u e = get_elem?-set i l t u e

pub set-HasQueue :
    (tid i a : ℕ) (queue new : List ℕ) (l : List Task) (q : HasQueue l tid i a queue)
    → HasQueue (set l i (record q.task { message_queue = new })) tid i a new
unfolding get_task_by_id
set-HasQueue tid i a queue new l q = record {
  found = find_task-set tid 0 i l q.task new q.at ∙ q.found;
  task = record q.task { message_queue = new };
  at = get_elem?-set i l q.task (record q.task { message_queue = new }) q.at;
  address = q.address;
  messages = refl;
}

pub load32-Frame :
    (a x : ℕ) (m m' : Mem)
    → Frame a m m'
    → (x + 4 ≤ a + 68) ⊎ (a + 84 ≤ x)
    → load32 m' x ≡ load32 m x
load32-Frame a x m m' frame h =
    load32-frame m m' x (frame x (ground arith)) (frame (x + 1) (ground arith))
      (frame (x + 2) (ground arith)) (frame (x + 3) (ground arith))

-- A queue at rest: its task, its messages, its lock free, and its semaphore's value.
pub record Resting {Dev : Type 0} (k : Kernel Dev) (tid i a : ℕ) (queue : List ℕ) (value : ℕ)
    : Type 0 where
  pub queued : HasQueue k.tasks tid i a queue
  pub words : QueueWords k.mem a 0 value

pub store_header-QueueWords :
    (a lock value header v : ℕ) (m : Mem)
    → (header + 4 ≤ a + 68) ⊎ (a + 84 ≤ header)
    → QueueWords m a lock value
    → QueueWords (store32 m header v) a lock value
store_header-QueueWords a lock value header v m apart w = record {
  lock_word = load32-store32_apart m header v (a + 68) (ground arith) ∙ w.lock_word;
  lock_spin = load32-store32_apart m header v (a + 68 + 4) (ground arith) ∙ w.lock_spin;
  value_word = load32-store32_apart m header v (a + 76) (ground arith) ∙ w.value_word;
  value_spin = load32-store32_apart m header v (a + 76 + 4) (ground arith) ∙ w.value_spin;
}

pub store_header-Frame :
    (a header v x : ℕ) (m m' : Mem)
    → Frame a m m'
    → (x < a + 68) ⊎ (a + 84 ≤ x)
    → store32 m' header v x ≡ store32 m header v x
unfolding store32
store_header-Frame a header v x m m' frame o = ground (arith, frame x o)
