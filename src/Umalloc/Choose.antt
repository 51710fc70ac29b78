-- ===== src/Umalloc/Choose.antt =====
-- The choice of allocate_memory in kernel/src/umalloc.c.
use sofie_os.Base.{
  ℕ, suc, ◌+◌, ◌≤◌, ◌<◌, ◌≡◌, refl, ◌⊎◌, inl, inr, Option, some, none, List, [], ◌∷◌, ◌&&◌, leb,
  get_elem?, All, All-mono, false, subst, arith, Bool-cases,
}
use sofie_os.Kernel.{FreeListNode}
use sofie_os.Umalloc.Defs.{choose_from, choose, better}

abbrev Choice : Type 0
Choice = Option (ℕ × FreeListNode)

-- The choice is at most `n` bytes long.
abbrev Beats : Choice → ℕ → Type 0
Beats none n = ⊥
Beats (some (i, c)) n = c.length ≤ n

Beats-mono : (r : Choice) (a b : ℕ) → Beats r a → a ≤ b → Beats r b
Beats-mono none a b h le = h
Beats-mono (some (i, c)) a b h le = omega arith

-- An earlier choice is kept or beaten.
choose_from-Beats_best :
    (size i j : ℕ) (b : FreeListNode) (l : List FreeListNode)
    → Beats (choose_from size i (some (j, b)) l) b.length
unfolding choose_from
choose_from-Beats_best size i j b [] = omega arith
choose_from-Beats_best size i j b (p ∷ rest) =
    elim (Bool-cases (leb size p.length && better (some (j, b)) p)) [
      | inl e ↦ rw e (
          Beats-mono (choose_from size (i + 1) (some (i, p)) rest) p.length b.length
            (choose_from-Beats_best size (i + 1) i p rest) (ground arith))
      | inr e ↦ rw e (choose_from-Beats_best size (i + 1) j b rest)
    ]

-- A block that is not taken is too short or beaten already.
Beats-untaken :
    (size : ℕ) (best r : Choice) (p : FreeListNode)
    → (leb size p.length && better best p) ≡ false
    → ((b : ℕ) (c : FreeListNode) → best ≡ some (b, c) → Beats r c.length)
    → size ≤ p.length
    → Beats r p.length
Beats-untaken size none r p f kept h = absurd (ground arith)
Beats-untaken size (some (b, c)) r p f kept h =
    Beats-mono r c.length p.length (kept b c refl) (ground arith)

-- Every block that is long enough is at least as long as the choice.
choose_from-Beats :
    (size i : ℕ) (best r : Choice) (l : List FreeListNode)
    → choose_from size i best l ≡ r
    → All (λ (n : FreeListNode). size ≤ n.length → Beats r n.length) l
unfolding choose_from
choose_from-Beats size i best r [] e = tt
choose_from-Beats size i best r (p ∷ rest) e =
    elim (Bool-cases (leb size p.length && better best p)) [
      | inl t ↦
          let e' : choose_from size (i + 1) (some (i, p)) rest ≡ r = ground arith in
          (
            λ h. subst (λ z. Beats z p.length) e' (choose_from-Beats_best size (i + 1) i p rest),
            choose_from-Beats size (i + 1) (some (i, p)) r rest e',
          )
      | inr f ↦
          let e' : choose_from size (i + 1) best rest ≡ r = ground arith in
          (
            Beats-untaken size best r p f λ b c same.
                subst (λ z. Beats z c.length) e'
                  (rw same (choose_from-Beats_best size (i + 1) b c rest)),
            choose_from-Beats size (i + 1) best r rest e',
          )
    ]

-- A choice is the earlier one, or a block of the list at its place that is long enough.
choose_from_sound :
    (size i j : ℕ) (best : Choice) (c : FreeListNode) (l : List FreeListNode)
    → choose_from size i best l ≡ some (j, c)
    → (best ≡ some (j, c)) ⊎ ((d : ℕ) × (j ≡ i + d) × (get_elem? l d ≡ some c) × (size ≤ c.length))
unfolding choose_from
choose_from_sound size i j best c [] e = inl e
choose_from_sound size i j best c (p ∷ rest) e =
    elim (Bool-cases (leb size p.length && better best p)) [
      | inl t ↦ elim (choose_from_sound size (i + 1) j (some (i, p)) c rest (ground arith)) [
        | inl same ↦ inr (0, ground arith, ground arith, ground arith)
        | inr (d, at, found, fits) ↦ inr (suc d, omega arith, found, fits)
      ]
      | inr f ↦ elim (choose_from_sound size (i + 1) j best c rest (ground arith)) [
        | inl same ↦ inl same
        | inr (d, at, found, fits) ↦ inr (suc d, omega arith, found, fits)
      ]
    ]

pub choose_found :
    (size j : ℕ) (c : FreeListNode) (l : List FreeListNode)
    → choose size l ≡ some (j, c)
    → (get_elem? l j ≡ some c) × (size ≤ c.length)
unfolding choose
choose_found size j c l e = elim (choose_from_sound size 0 j none c l e) [
  | inl same ↦ absurd (cc)
  | inr (d, at, found, fits) ↦ (ground (arith, found), fits)
]

-- The choice of allocate_memory is a best fit: no free block that is long enough is shorter than it.
pub choose_best :
    (size j : ℕ) (c : FreeListNode) (l : List FreeListNode)
    → choose size l ≡ some (j, c)
    → All (λ (n : FreeListNode). size ≤ n.length → c.length ≤ n.length) l
unfolding choose
choose_best size j c l e = choose_from-Beats size 0 none (some (j, c)) l e

-- Nothing is chosen only where every block is too short.
pub choose-none :
    (size : ℕ) (l : List FreeListNode)
    → choose size l ≡ none
    → All (λ (n : FreeListNode). n.length < size) l
unfolding choose
choose-none size l e =
    All-mono _ _ (λ n too_long. grind arith) l (choose_from-Beats size 0 none none l e)
