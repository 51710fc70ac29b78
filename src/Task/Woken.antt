-- ===== src/Task/Woken.antt =====
-- The states of a table of tasks, as wakeup and create_task of kernel/src/task.c change them.
use sofie_os.Base.{
  ℕ, zero, suc, ◌≡◌, ◌≢◌, ◌⊎◌, refl, sym, ap, ◌∙◌, some, List, [], ◌∷◌, ◌++◌, if◌then◌else◌,
  get_elem?, length, some-injective, arith, Bool-cases, inl, inr, Option,
}
use sofie_os.Word.{add32}
use sofie_os.Kernel.{Task}
use sofie_os.Task.Flags.{is_sleeping, is_running, set_state}
use sofie_os.Task.Defs.{wake, wakes, wake_all}
use sofie_os.Task.Unique.{tids}
use sofie_os.Task.Schedule.{states, IsPlaced, Placed}

pub states-back :
    (l : List Task) (j x : ℕ)
    → get_elem? (states l) j ≡ some x
    → (t : Task) × (get_elem? l j ≡ some t) × (x ≡ t.state)
unfolding states
states-back [] j x e = absurd cc
states-back (t ∷ rest) zero x e = (t, refl, sym (some-injective e))
states-back (t ∷ rest) (suc j) x e = states-back rest j x e

pub tids-wake_all : (channel count : ℕ) (l : List Task) → tids (wake_all channel l count).0 ≡ tids l
unfolding wake_all tids wake
tids-wake_all channel count [] = refl
tids-wake_all channel count (t ∷ rest) =
    ground (arith, tids-wake_all channel (if wakes channel t then add32 count 1 else count) rest)

pub IsPlaced-wake :
    (current : Option ℕ) (channel i : ℕ) (t : Task)
    → IsPlaced current i t.state
    → IsPlaced current i (wake channel t).state
unfolding wake set_state is_running is_sleeping
IsPlaced-wake current channel i t p = elim (Bool-cases (wakes channel t)) [
  | inl w ↦ rw w (record {
    one = inl (omega arith);
    only = λ h. absurd (ground (arith, h));
    runs = λ h. absurd (ground (arith, p.runs h, w));
  })
  | inr w ↦ rw w p
]

append-cases :
    (xs : List ℕ) (j y x : ℕ)
    → get_elem? (xs ++ y ∷ []) j ≡ some x
    → ((j ≡ length xs) × (x ≡ y)) ⊎ (get_elem? xs j ≡ some x)
append-cases [] zero y x e = inl (refl, sym (some-injective e))
append-cases [] (suc j) y x e = absurd cc
append-cases (z ∷ rest) zero y x e = inr e
append-cases (z ∷ rest) (suc j) y x e = elim (append-cases rest j y x e) [
  | inl (here, same) ↦ inl (ap suc here, same)
  | inr old ↦ inr old
]

-- A task that is added neither runs nor is current.
pub Placed-append :
    (current : Option ℕ) (xs : List ℕ) (y : ℕ)
    → y ≡ 1
    → current ≢ some (length xs)
    → ((i x : ℕ) → get_elem? xs i ≡ some x → IsPlaced current i x)
    → Placed current (xs ++ y ∷ [])
unfolding is_running
Placed-append current xs y e out p j x at = elim (append-cases xs j y x at) [
  | inl (here, same) ↦ record {
    one = inl (omega arith);
    only = λ h. absurd (ground (arith, h, same, e));
    runs = λ h. absurd (out (h ∙ ap some here));
  }
  | inr old ↦ p j x old
]
