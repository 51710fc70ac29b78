-- ===== src/Lock/Sleepers.antt =====
-- The tasks that sleep on a channel, before and after wakeup.
use sofie_os.Base.{ℕ, false, if◌then◌else◌, List, [], ◌∷◌, All, ◌≡◌, arith}
use sofie_os.Word.{add32}
use sofie_os.Kernel.{Task}
use sofie_os.Task.{wake, wakes, wake_all}
use sofie_os.Task.State.{set_state_flags}

-- No task sleeps on the channel.
abbrev pub NoSleeper : ℕ → List Task → Type 0
NoSleeper channel l = All (λ (t : Task). wakes channel t ≡ false) l

wake-NoSleeper : (channel : ℕ) (t : Task) → wakes channel (wake channel t) ≡ false
unfolding wake
wake-NoSleeper channel t = ground (arith, set_state_flags t.state 0)

pub wake_all-NoSleeper :
    (channel : ℕ) (l : List Task) (n : ℕ) → NoSleeper channel (wake_all channel l n).0
unfolding wake_all
wake_all-NoSleeper channel [] n = tt
wake_all-NoSleeper channel (t ∷ rest) n = (
  wake-NoSleeper channel t,
  wake_all-NoSleeper channel rest (if wakes channel t then add32 n 1 else n),
)
