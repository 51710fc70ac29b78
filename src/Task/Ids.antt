-- ===== src/Task/Ids.antt =====
-- Task ids: get_tid of kernel/src/task.c.
use Prim.Native.Nat.{max, bit_or}
use sofie_os.Base.{
  ℕ, zero, suc, ◌+◌, ◌-◌, ◌^◌, ◌≤◌, ◌<◌, ◌≡◌, ◌≢◌, Bool, true, false, ◌||◌, some, none, List, [],
  ◌∷◌, ◌∙◌, ◌==◌, if◌then◌else◌, All, arith, Bool-cases, inl, inr, subst, ==→eq, not-==→ne, tests,
}
use sofie_os.Word.{bit_at, bit_at-bit_or, bit_at-pow, bit_at-zero}
use sofie_os.Kernel.{Task}
use sofie_os.Task.Table.{used_tids, first_free, get_tid, max_task_count}

-- Whether a task has the id.
unfoldable pub has_tid : ℕ → List Task → Bool
has_tid tid [] = false
has_tid tid (t ∷ rest) = t.tid == tid || has_tid tid rest

-- The ids that create_task gives out.
abbrev pub InRange : List Task → Type 0
InRange l = All (λ (t : Task). (1 ≤ t.tid) × (t.tid ≤ max_task_count)) l

used_tids-has_tid :
    (i used : ℕ) (l : List Task)
    → InRange l
    → bit_at i (used_tids used l) ≡ max (bit_at i used) (if has_tid (i + 1) l then 1 else 0)
unfolding used_tids has_tid
used_tids-has_tid i used [] r = omega arith
used_tids-has_tid i used (t ∷ rest) r =
    used_tids-has_tid i (bit_or used (2 ^ (t.tid - 1))) rest r.1
    ∙ ground (arith, bit_at-bit_or i used (2 ^ (t.tid - 1)), bit_at-pow i (t.tid - 1))

first_free-some :
    (n i used t : ℕ)
    → first_free n i used ≡ some t
    → (i < t)
      × (t ≤ i + n)
      × (bit_at (t - 1) used ≡ 0)
      × ((j : ℕ) → i ≤ j → j + 1 < t → bit_at j used ≢ 0)
unfolding first_free
first_free-some zero i used t e = cc
first_free-some (suc n) i used t e = elim (Bool-cases (bit_at i used == 0)) [
  | inl z ↦
      let e' : i + 1 ≡ t = ground arith in
      (
        omega arith,
        omega arith,
        subst (λ s. bit_at (s - 1) used ≡ 0) e'
            (subst (λ s. bit_at s used ≡ 0) (omega arith) (==→eq _ _ z)),
        λ j p q. absurd (omega arith),
      )
  | inr nz ↦
      let (lo, hi, clear, taken) = first_free-some n (i + 1) used t (ground arith) in
      (
        omega arith,
        omega arith,
        clear,
        λ j p q. elim (Bool-cases (i == j)) [
          | inl same ↦ subst (λ s. bit_at s used ≢ 0) (==→eq i j same) (not-==→ne _ _ nz)
          | inr other ↦ taken j (omega (tests, other)) q
        ],
      )
]

first_free-none :
    (n i used j : ℕ) → first_free n i used ≡ none → i ≤ j → j < i + n → bit_at j used ≢ 0
unfolding first_free
first_free-none zero i used j e p q = absurd (omega arith)
first_free-none (suc n) i used j e p q = elim (Bool-cases (i == j)) [
  | inl same ↦ subst (λ s. bit_at s used ≢ 0) (==→eq i j same) (ground arith)
  | inr other ↦ first_free-none n (i + 1) used j (ground arith) (omega (tests, other)) (omega arith)
]

-- For a table whose ids are all from 1 to 16, the id that get_tid returns is from 1 to 16, no task has
-- it, and every smaller id from 1 on is taken.
pub get_tid-some :
    (l : List Task) (t : ℕ)
    → InRange l
    → get_tid l ≡ some t
    → (1 ≤ t)
      × (t ≤ max_task_count)
      × (has_tid t l ≡ false)
      × ((s : ℕ) → 1 ≤ s → s < t → has_tid s l ≡ true)
unfolding get_tid
get_tid-some l t r e =
    let (lo, hi, clear, taken) = first_free-some 16 0 (used_tids 0 l) t e in
    let bits = λ (i : ℕ). used_tids-has_tid i 0 l r in
    (
      omega arith,
      omega arith,
      subst (λ s. has_tid s l ≡ false) {x = t - 1 + 1} (omega arith)
          (ground (arith, bits (t - 1), bit_at-zero (t - 1))),
      λ s p q.
          subst (λ x. has_tid x l ≡ true) {x = s - 1 + 1} (omega arith)
            (ground (
              arith,
              bits (s - 1),
              bit_at-zero (s - 1),
              taken (s - 1) (omega arith) (omega arith),
            )),
    )

-- For a table whose ids are all from 1 to 16, get_tid returns -1 only if every id from 1 to 16 is taken.
pub get_tid-none :
    (l : List Task)
    → InRange l
    → get_tid l ≡ none
    → (s : ℕ) → 1 ≤ s
    → s ≤ max_task_count
    → has_tid s l ≡ true
unfolding get_tid
get_tid-none l r e s p q =
    subst (λ x. has_tid x l ≡ true) {x = s - 1 + 1} (omega arith)
      (ground (
        arith,
        used_tids-has_tid (s - 1) 0 l r,
        bit_at-zero (s - 1),
        first_free-none 16 0 (used_tids 0 l) (s - 1) e (omega arith) (omega arith),
      ))
