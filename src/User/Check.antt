-- ===== src/User/Check.antt =====
-- How the hart checks a user-mode access, after the RISC-V privileged architecture: the lowest region that
-- matches the address decides.
use sofie_os.Base.{
  ℕ, zero, suc, ◌+◌, ◌*◌, ◌<◌, ◌≤◌, ◌≡◌, Bool, true, not, ◌&&◌, ◌||◌, ◌==◌, ltb, leb, arith,
  Bool-cases, inl, inr, ==→eq, not-==→ne, ◌∙◌,
}
use native.Mathlib.Numerals.{add-one}
use sofie_os.Word.{shr2}
use sofie_os.Metal.{Metal, pmp_off, pmp_tor, region_count}
use sofie_os.Pmp.Slots.{Ranges}
use sofie_os.User.Defs.{Hart}

module _ {Dev : Type 0} (metal : Metal Dev) where
  -- The address lies between those of the region before and of this one, as a top-of-range region
  -- means it.
  abbrev pub in_range : Dev → ℕ → ℕ → Bool
  in_range d a zero = ltb (shr2 a) (metal.address d 0)
  in_range d a (suc i) = leb (metal.address d i) (shr2 a) && ltb (shr2 a) (metal.address d (suc i))

  -- The region is off, or a top-of-range region elsewhere.
  abbrev pub passes_over : Dev → ℕ → ℕ → Bool
  passes_over d a i =
      (metal.config d i).a == pmp_off || (metal.config d i).a == pmp_tor && not (in_range d a i)

  -- An access passes if the first region that matches is a top-of-range region that lets it be read and
  -- written.
  pub record ChecksPmp (hart : Hart Dev) : Type 0 where
    pub lowest_decides :
        (d : Dev) (a i : ℕ)
        → i < region_count
        → ((j : ℕ) → j < i → passes_over d a j ≡ true)
        → (metal.config d i).a ≡ pmp_tor
        → in_range d a i ≡ true
        → (metal.config d i).r ≡ 1
        → (metal.config d i).w ≡ 1
        → hart.permits d a ≡ true

  -- Only the addresses of a region and of the one before matter.
  passes_over_same :
      (d d' : Dev) (a n : ℕ)
      → ((j : ℕ) → j < n → metal.config d' j ≡ metal.config d j)
      → ((j : ℕ) → j < n → metal.address d' j ≡ metal.address d j)
      → (j : ℕ) → j < n
      → passes_over d' a j ≡ passes_over d a j
  passes_over_same d d' a n c e zero h = rw (c 0 h, e 0 h)
  passes_over_same d d' a n c e (suc j) h = rw (c (suc j) h, e (suc j) h, e j (omega arith))

  in_range_suc :
      (d : Dev) (a i : ℕ)
      → metal.address d i ≤ shr2 a
      → shr2 a < metal.address d (i + 1)
      → in_range d a (i + 1) ≡ true
  in_range_suc d a i h k = rw add-one (ground (arith, rw add-one at k))

  -- A pair of regions that was opened for a range lets accesses to it pass, if no region below the pair
  -- matches.
  pub Ranges-permits :
      (hart : Hart Dev) (slot from to a : ℕ) (d d' : Dev)
      → ChecksPmp hart
      → slot < 3
      → Ranges metal (2 * slot) (2 * slot + 1) from to 1 d d'
      → from ≤ a
      → shr2 a < shr2 to
      → ((j : ℕ) → j < 2 * slot → passes_over d a j ≡ true)
      → hart.permits d' a ≡ true
  unfolding shr2
  Ranges-permits hart slot from to a d d' checks low r above below over =
      let keeps =
        passes_over_same d d' a (2 * slot) (λ j h. r.other_config j (omega arith) (omega arith))
          (λ j h. r.other_address j (omega arith) (omega arith)) in
      checks.lowest_decides d' a (2 * slot + 1) (omega arith)
        (λ j h. elim (Bool-cases (j == 2 * slot)) [
          | inl same ↦ rw (==→eq j (2 * slot) same, r.start_config)
          | inr other ↦
              let lt : j < 2 * slot = omega (arith, not-==→ne j (2 * slot) other) in
              keeps j lt ∙ over j lt
        ])
        (rw r.stop_config)
        (in_range_suc d' a (2 * slot) (omega (arith, r.start_address))
          (omega (arith, r.stop_address)))
        (rw r.stop_config) (rw r.stop_config)
