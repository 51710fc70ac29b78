-- ===== src/Task/Unique.antt =====
-- Lists of different numbers up to a bound, for the ids of kernel/src/task.c.
use sofie_os.Base.{
  ℕ, zero, suc, ◌≤◌, ◌≡◌, ◌≢◌, false, List, [], ◌∷◌, ◌++◌, ◌==◌, if◌then◌else◌, All, All-append,
  sym, length, arith, Bool-cases, inl, inr, refl, get_elem?, set, some, ap, tests,
}
use sofie_os.Kernel.{Task}
use sofie_os.Task.Table.{max_task_count}
use sofie_os.Task.Ids.{has_tid, InRange}

abbrev pub Distinct : List ℕ → Type 0
Distinct [] = Unit {0}
Distinct (x ∷ rest) = All (λ y. y ≢ x) rest × Distinct rest

abbrev pub UpTo : ℕ → List ℕ → Type 0
UpTo n xs = All (λ x. (1 ≤ x) × (x ≤ n)) xs

-- The list without the first entry that is `s`.
abbrev omit : ℕ → List ℕ → List ℕ
omit s [] = []
omit s (x ∷ rest) = if x == s then rest else x ∷ omit s rest

All-omit : (P : ℕ → Type 0) (s : ℕ) (xs : List ℕ) → All P xs → All P (omit s xs)
All-omit P s [] h = tt
All-omit P s (x ∷ rest) h = elim (Bool-cases (x == s)) [
  | inl here ↦ rw here h.1
  | inr other ↦ rw other (h.0, All-omit P s rest h.1)
]

Distinct-omit : (s : ℕ) (xs : List ℕ) → Distinct xs → Distinct (omit s xs)
Distinct-omit s [] h = tt
Distinct-omit s (x ∷ rest) h = elim (Bool-cases (x == s)) [
  | inl here ↦ rw here h.1
  | inr other ↦ rw other (All-omit (λ y. y ≢ x) s rest h.0, Distinct-omit s rest h.1)
]

All-lower : (n x : ℕ) (xs : List ℕ) → x ≡ suc n → UpTo (suc n) xs → All (λ y. y ≢ x) xs → UpTo n xs
All-lower n x [] e h d = tt
All-lower n x (y ∷ ys) e h d = ((h.0.0, omega (arith, h.0.1, d.0)), All-lower n x ys e h.1 d.1)

UpTo-omit : (n : ℕ) (xs : List ℕ) → UpTo (suc n) xs → Distinct xs → UpTo n (omit (suc n) xs)
UpTo-omit n [] h d = tt
UpTo-omit n (x ∷ rest) h d = elim (Bool-cases (x == suc n)) [
  | inl here ↦ rw here (All-lower n x rest (ground arith) h.1 d.0)
  | inr other ↦ rw other ((h.0.0, omega (tests, other, h.0.1)), UpTo-omit n rest h.1 d.1)
]

length-omit : (s : ℕ) (xs : List ℕ) → length xs ≤ suc (length (omit s xs))
length-omit s [] = omega arith
length-omit s (x ∷ rest) = ground (arith, length-omit s rest)

-- Different numbers from 1 to n are at most n many.
pub length-UpTo : (n : ℕ) (xs : List ℕ) → UpTo n xs → Distinct xs → length xs ≤ n
length-UpTo zero [] h d = omega arith
length-UpTo zero (x ∷ rest) h d = absurd (omega (arith, h.0.0, h.0.1))
length-UpTo (suc n) xs h d = omega (
  arith,
  length-omit (suc n) xs,
  length-UpTo n (omit (suc n) xs) (UpTo-omit n xs h d) (Distinct-omit (suc n) xs d),
)

pub Distinct-append :
    (x : ℕ) (xs : List ℕ) → Distinct xs → All (λ y. y ≢ x) xs → Distinct (xs ++ x ∷ [])
Distinct-append x [] d h = (tt, tt)
Distinct-append x (y ∷ ys) d h =
    (All-append (λ z. z ≢ y) ys (x ∷ []) d.0 ((λ e. h.0 (sym e)), tt), Distinct-append x ys d.1 h.1)

-- The ids of a table.
unfoldable pub tids : List Task → List ℕ
tids [] = []
tids (t ∷ rest) = t.tid ∷ tids rest

pub tids-InRange : (l : List Task) → UpTo max_task_count (tids l) → InRange l
unfolding tids
tids-InRange [] h = tt
tids-InRange (t ∷ rest) h = (h.0, tids-InRange rest h.1)

pub tids-fresh : (s : ℕ) (l : List Task) → has_tid s l ≡ false → All (λ y. y ≢ s) (tids l)
unfolding tids has_tid
tids-fresh s [] h = tt
tids-fresh s (t ∷ rest) h = elim (Bool-cases (t.tid == s)) [
  | inl here ↦ absurd (ground (arith, h, here))
  | inr other ↦ (omega (tests, other), tids-fresh s rest (ground (arith, h, other)))
]

pub length-tids : (l : List Task) → length (tids l) ≡ length l
unfolding tids
length-tids [] = refl
length-tids (t ∷ rest) = ap suc (length-tids rest)

pub tids-set :
    (l : List Task) (i : ℕ) (t u : Task)
    → get_elem? l i ≡ some t
    → u.tid ≡ t.tid
    → tids (set l i u) ≡ tids l
unfolding tids
tids-set [] i t u e h = refl
tids-set (x ∷ rest) zero t u e h = ap (λ y. y ∷ tids rest) (ground (arith, e, h))
tids-set (x ∷ rest) (suc i) t u e h = ap (λ xs. x.tid ∷ xs) (tids-set rest i t u e h)

pub tids-append : (l : List Task) (t : Task) → tids (l ++ t ∷ []) ≡ tids l ++ t.tid ∷ []
unfolding tids
tids-append [] t = refl
tids-append (x ∷ rest) t = ap (λ xs. x.tid ∷ xs) (tids-append rest t)
