-- ===== src/Kernel/Monad.antt =====
-- What a run of kernel code ends in, and commands composed from such runs.
use mathlib.Core.Path.{◌≡◌, refl}

-- `panicked`: the code called panic, or is in another loop that does nothing for ever. `fault`: it read
-- through a NULL or wild pointer. `hung`: it waits for a spinlock that no one can release. `starved`:
-- it waited for as many rounds as were given and was woken in vain each time. `switched s k`: swtch
-- gave control to the scheduler in state `s`; when the task is scheduled again, in whatever state, the
-- code goes on with `k`.
pub data Run (S A : Type 0) : Type 0 where
  done : A → S → Run S A
  panicked : S → Run S A
  fault : Run S A
  hung : S → Run S A
  starved : S → Run S A
  switched : S → (S → Run S A) → Run S A

abbrev pub Cmd : Type 0 → Type 0 → Type 0
Cmd S A = S → Run S A

module _ {S A : Type 0} where
  abbrev pub pure : A → Cmd S A
  pure a = done a

module _ {S A B : Type 0} where
  abbrev pub and_then : Run S A → (A → Cmd S B) → Run S B
  and_then (done a s) f = f a s
  and_then (panicked s) f = panicked s
  and_then fault f = fault
  and_then (hung s) f = hung s
  and_then (starved s) f = starved s
  and_then (switched s k) f = switched s (λ s'. and_then (k s') f)

  infixl 5 ◌>>=◌ ◌>>◌
  abbrev pub ◌>>=◌ : Cmd S A → (A → Cmd S B) → Cmd S B
  ◌>>=◌ m f s = and_then (m s) f

  abbrev pub ◌>>◌ : Cmd S A → Cmd S B → Cmd S B
  ◌>>◌ m n s = and_then (m s) (λ _. n)

module _ {S A : Type 0} (a b : A) (s t : S) where
  pub done-value : done a s ≡ done b t → a ≡ b
  done-value e = cc

  pub done-state : done a s ≡ done b t → s ≡ t
  done-state e = cc

pub switched-state :
    {S A : Type 0} {s t : S} {c d : Cmd S A}
    → ◌≡◌ {A = Run S A} (switched s c) (switched t d)
    → s ≡ t
switched-state e = cc

module _ {S A B : Type 0} where
  -- A run that comes to an end, of which the first part does so too.
  pub and_then-done :
      (r : Run S A) (f : A → Cmd S B) (b : B) (t : S)
      → and_then r f ≡ done b t
      → (a : A) × (s : S) × (r ≡ done a s) × (f a s ≡ done b t)
  and_then-done (done a s) f b t e = (a, s, refl, e)
  and_then-done (panicked s) f b t e = cc
  and_then-done fault f b t e = cc
  and_then-done (hung s) f b t e = cc
  and_then-done (starved s) f b t e = cc
  and_then-done (switched s k) f b t e = cc

module _ {S A B C : Type 0} (f : A → Cmd S B) (g : B → Cmd S C) where
  pub and_then_assoc :
      (r : Run S A) → and_then (and_then r f) g ≡ and_then r (λ a s. and_then (f a s) g)
  and_then_assoc (done a s) = refl
  and_then_assoc (panicked s) = refl
  and_then_assoc fault = refl
  and_then_assoc (hung s) = refl
  and_then_assoc (starved s) = refl
  and_then_assoc (switched s k) = λ i. switched s (λ t. and_then_assoc (k t) i)
