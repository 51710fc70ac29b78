-- ===== src/Task/Placed.antt =====
-- The states of a table of tasks, under the changes that kernel/src/task.c makes to them.
use sofie_os.Base.{
  ℕ, zero, suc, ◌+◌, ◌%◌, ◌≡◌, ◌≢◌, ◌⊎◌, refl, sym, subst, ap, ◌∙◌, false, some, none, List, [],
  ◌∷◌, ◌++◌, if◌then◌else◌, get_elem?, set, length, some-injective, arith, inl, inr,
}
use sofie_os.Kernel.{Task}
use sofie_os.Task.Flags.{is_sleeping, is_running}
use sofie_os.Task.Count.{awake}
use sofie_os.Task.Schedule.{states, IsOneState, Placed}

pub length-states : (l : List Task) → length (states l) ≡ length l
unfolding states
length-states [] = refl
length-states (t ∷ rest) = ap suc (length-states rest)

pub states-set : (l : List Task) (i : ℕ) (u : Task) → states (set l i u) ≡ set (states l) i u.state
unfolding states
states-set [] i u = refl
states-set (x ∷ rest) zero u = refl
states-set (x ∷ rest) (suc i) u = ap (λ xs. x.state ∷ xs) (states-set rest i u)

pub states-append : (l : List Task) (t : Task) → states (l ++ t ∷ []) ≡ states l ++ t.state ∷ []
unfolding states
states-append [] t = refl
states-append (x ∷ rest) t = ap (λ xs. x.state ∷ xs) (states-append rest t)

pub states-at :
    (l : List Task) (i : ℕ) (t : Task)
    → get_elem? l i ≡ some t
    → get_elem? (states l) i ≡ some t.state
unfolding states
states-at [] i t e = cc
states-at (x ∷ rest) zero t e = ground (arith, e)
states-at (x ∷ rest) (suc i) t e = states-at rest i t e

-- The states that are not the sleeping one.
unfoldable count_awake : List ℕ → ℕ
count_awake [] = 0
count_awake (x ∷ rest) = (if is_sleeping x then 0 else 1) + count_awake rest

awake-states : (l : List Task) → awake l ≡ count_awake (states l)
unfolding awake states count_awake
awake-states [] = refl
awake-states (t ∷ rest) = omega (arith, awake-states rest)

pub awake-same : (l l' : List Task) → states l' ≡ states l → awake l' ≡ awake l
awake-same l l' e = awake-states l' ∙ ap count_awake e ∙ sym (awake-states l)

count_awake-set :
    (xs : List ℕ) (i x y : ℕ)
    → get_elem? xs i ≡ some x
    → is_sleeping y ≡ is_sleeping x
    → count_awake (set xs i y) ≡ count_awake xs
unfolding count_awake
count_awake-set [] i x y e h = refl
count_awake-set (z ∷ rest) zero x y e h = ground (arith, some-injective e)
count_awake-set (z ∷ rest) (suc i) x y e h = omega (arith, count_awake-set rest i x y e h)

-- A change between states that do not sleep leaves the count.
pub awake-set :
    (l : List Task) (i : ℕ) (t u : Task)
    → get_elem? l i ≡ some t
    → is_sleeping u.state ≡ is_sleeping t.state
    → awake (set l i u) ≡ awake l
awake-set l i t u e h =
    awake-states (set l i u)
    ∙ ap count_awake (states-set l i u)
    ∙ count_awake-set (states l) i t.state u.state (states-at l i t e) h
    ∙ sym (awake-states l)

pub awake-append :
    (l : List Task) (t : Task) → is_sleeping t.state ≡ false → awake (l ++ t ∷ []) ≡ suc (awake l)
unfolding awake
awake-append [] t h = ground arith
awake-append (x ∷ rest) t h = omega (arith, awake-append rest t h)

-- An entry of a list in which one was replaced.
set-cases :
    (xs : List ℕ) (i j y x : ℕ)
    → get_elem? (set xs i y) j ≡ some x
    → ((j ≡ i) × (x ≡ y)) ⊎ ((j ≢ i) × (get_elem? xs j ≡ some x))
set-cases [] i j y x e = absurd cc
set-cases (z ∷ rest) zero zero y x e = inl (refl, sym (some-injective e))
set-cases (z ∷ rest) zero (suc j) y x e = inr (omega arith, e)
set-cases (z ∷ rest) (suc i) zero y x e = inr (omega arith, e)
set-cases (z ∷ rest) (suc i) (suc j) y x e = elim (set-cases rest i j y x e) [
  | inl (here, same) ↦ inl (ap suc here, same)
  | inr (other, at) ↦ inr (omega arith, at)
]

-- The scheduler makes a task run while none is current.
pub Placed-enter :
    (xs : List ℕ) (i y : ℕ) → y % 16 ≡ 2 → Placed none xs → Placed (some i) (set xs i y)
unfolding is_running
Placed-enter xs i y run p j x e = elim (set-cases xs i j y x e) [
  | inl (here, same) ↦ record {
    one = inr (inl (omega arith));
    only = λ h. ap some (sym here);
    runs = λ h. ground arith;
  }
  | inr (other, at) ↦
      let old = p j x at in
      record {
        one = old.one;
        only = λ h. absurd (ground (arith, old.only h));
        runs = λ h. absurd (other (sym (some-injective h)));
      }
]

-- The current task stops running, and none is current.
pub Placed-leave :
    (xs : List ℕ) (i y : ℕ)
    → IsOneState y
    → is_running y ≡ false
    → Placed (some i) xs
    → Placed none (set xs i y)
Placed-leave xs i y one stop p j x e = elim (set-cases xs i j y x e) [
  | inl (here, same) ↦ record {
    one = subst IsOneState (sym same) one;
    only = λ h. absurd (ground (arith, h, stop));
    runs = λ h. absurd cc;
  }
  | inr (other, at) ↦
      let old = p j x at in
      record {
        one = old.one;
        only = λ h. absurd (other (sym (some-injective (old.only h))));
        runs = λ h. absurd cc;
      }
]
