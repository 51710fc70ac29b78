-- ===== src/Pmp/Slots.antt =====
-- enable_buffer_access and clear_buffer_access of kernel/src/pmp.c.
use sofie_os.Base.{
  ℕ, zero, suc, ◌+◌, ◌*◌, ◌%◌, ◌/◌, ltb, ◌<◌, ◌≡◌, ◌≢◌, refl, ◌∙◌, ◌&&◌, ◌||◌, some, none, arith,
  ◌==◌, leb, if◌then◌else◌, Bool-cases, Option-cases, inl, inr,
}
use sofie_os.Word.{word_size, shr2, shl2}
use sofie_os.Metal.{Metal, Lawful, PmpConfig, pmp_off, pmp_tor, pmp_unlocked, region_count}
use sofie_os.Pmp.Defs.{
  Pmp, set_top_of_range, clear_pair, clear_buffer_access, take_slot, choose_slot,
  enable_buffer_access, current_slot,
}
use sofie_os.Pmp.Device.{
  IsReady, set_region-ok, config-set_region, address-set_region, set_region-IsReady, set_mode-ok,
  config-set_mode, address-set_mode, set_mode-IsReady,
}

-- The configuration of the region that ends a range, or that only holds its start.
abbrev pub range_config : ℕ → ℕ → PmpConfig
range_config mode access = record { l = pmp_unlocked; a = mode; x = 0; w = access; r = access }

-- From `d` to `d'` the regions `start` and `stop` were set to one top-of-range pair over
-- [from, to), and nothing else changed.
pub record Ranges {Dev : Type 0} (metal : Metal Dev) (start stop from to access : ℕ) (d d' : Dev)
    : Type 0 where
  pub start_config : metal.config d' start ≡ range_config pmp_off access
  pub stop_config : metal.config d' stop ≡ range_config pmp_tor access
  pub start_address : metal.address d' start ≡ shr2 from
  pub stop_address : metal.address d' stop ≡ shr2 to
  pub other_config : (j : ℕ) → j ≢ start → j ≢ stop → metal.config d' j ≡ metal.config d j
  pub other_address : (j : ℕ) → j ≢ start → j ≢ stop → metal.address d' j ≡ metal.address d j

shr2-lt : (a : ℕ) → a < word_size → shr2 a < word_size
unfolding shr2
shr2-lt a h = omega arith

-- The slots that enable_buffer_access keeps in its two static variables exist.
pub record InTurn {Dev : Type 0} (p : Pmp Dev) : Type 0 where
  pub robin : p.pmp_robin < 3
  pub current : current_slot p.stack_pmp p.pmp_robin < 3

module _ {Dev : Type 0} ⦃metal : Metal Dev⦄ where
  choose_slot-InTurn :
      (slot from to mode : ℕ) (p q : Pmp Dev)
      → slot < 3
      → InTurn p
      → choose_slot slot from to mode p ≡ some q
      → InTurn q
  unfolding choose_slot take_slot
  choose_slot-InTurn slot from to mode p q hs inv e = ground arith

  -- Whatever is enabled, on any device, the slots of the two static variables stay below 3.
  pub enable-InTurn :
      (from to mode : ℕ) (p q : Pmp Dev)
      → InTurn p
      → enable_buffer_access from to mode p ≡ some q
      → InTurn q
  unfolding enable_buffer_access
  enable-InTurn from to mode p q inv e =
      let slot = current_slot p.stack_pmp p.pmp_robin in
      elim (Option-cases (choose_slot slot from to mode p)) [
        | inl no_slot ↦ ground arith
        | inr (r, chosen) ↦
            ground (arith, choose_slot-InTurn slot from to mode p r inv.current inv chosen)
      ]

module _ {Dev : Type 0} ⦃metal : Metal Dev⦄ (laws : Lawful metal) where
  pub set_top_of_range-Ranges :
      (from to access start stop : ℕ) (d : Dev)
      → IsReady metal d
      → from < word_size
      → to < word_size
      → start < region_count
      → stop < region_count
      → start ≢ stop
      → (d' : Dev) × (set_top_of_range from to access start stop d ≡ some d')
        × IsReady metal d'
        × Ranges metal start stop from to access d d'
  unfolding set_top_of_range
  set_top_of_range-Ranges from to access start stop d ready hf ht hs he ne =
      let c = range_config pmp_off access in
      let d1 = (metal.set_region d stop c (shr2 to)).1 in
      let r1 = set_region-IsReady laws d ready stop c (shr2 to) he refl in
      let d2 = (metal.set_region d1 start c (shr2 from)).1 in
      let r2 = set_region-IsReady laws d1 r1 start c (shr2 from) hs refl in
      let d3 = (metal.set_address_mode d2 stop pmp_tor).1 in
      let c1 = config-set_region laws d ready stop c (shr2 to) he in
      let c2 = config-set_region laws d1 r1 start c (shr2 from) hs in
      let c3 = config-set_mode laws d2 r2 stop pmp_tor he in
      let a1 = λ (j : ℕ). address-set_region laws d ready stop c (shr2 to) he j (shr2-lt to ht) in
      let a2 =
        λ (j : ℕ). address-set_region laws d1 r1 start c (shr2 from) hs j (shr2-lt from hf) in
      let a3 = address-set_mode laws d2 r2 stop pmp_tor he in
      (
        d3,
        rw (
          ready.here,
          set_region-ok laws d ready stop c (shr2 to) he,
          set_region-ok laws d1 r1 start c (shr2 from) hs,
          set_mode-ok laws d2 r2 stop pmp_tor he,
        ),
        set_mode-IsReady laws d2 r2 stop pmp_tor he,
        record {
          start_config = ground (arith, c1 start, c2 start, c3 start);
          stop_config = ground (arith, c1 stop, c2 stop, c3 stop);
          start_address = ground (arith, a1 start, a2 start, a3 start);
          stop_address = ground (arith, a1 stop, a2 stop, a3 stop);
          other_config = λ j p q. ground (arith, c1 j, c2 j, c3 j);
          other_address = λ j p q. ground (arith, a1 j, a2 j, a3 j);
        },
      )

  -- The state after one slot was taken.
  abbrev TakesSlot : (slot from to mode : ℕ) → Pmp Dev → Pmp Dev → Type 0
  TakesSlot slot from to mode p q =
      IsReady metal q.dev
      × Ranges metal (2 * slot) (2 * slot + 1) from to 1 p.dev q.dev
      × (q.pmp_robin ≡ (slot + 1) % 3)
      × (q.stack_pmp ≡ (if mode == 0 then p.stack_pmp else some slot))

  choose_slot-TakesSlot :
      (slot from to mode : ℕ) (p : Pmp Dev)
      → IsReady metal p.dev
      → from < word_size
      → to < word_size
      → slot < 3
      → (q : Pmp Dev) × (choose_slot slot from to mode p ≡ some q) × TakesSlot slot from to mode p q
  unfolding choose_slot take_slot
  choose_slot-TakesSlot zero from to mode p ready hf ht h =
      let (d, e, r, w) =
        set_top_of_range-Ranges from to 1 0 1 p.dev ready hf ht (omega arith) (omega arith)
          (omega arith) in
      (_, rw (choose_slot, take_slot, e), (r, w, refl, refl))
  choose_slot-TakesSlot (suc zero) from to mode p ready hf ht h =
      let (d, e, r, w) =
        set_top_of_range-Ranges from to 1 2 3 p.dev ready hf ht (omega arith) (omega arith)
          (omega arith) in
      (_, rw (choose_slot, take_slot, e), (r, w, refl, refl))
  choose_slot-TakesSlot (suc (suc zero)) from to mode p ready hf ht h =
      let (d, e, r, w) =
        set_top_of_range-Ranges from to 1 4 5 p.dev ready hf ht (omega arith) (omega arith)
          (omega arith) in
      (_, rw (choose_slot, take_slot, e), (r, w, refl, refl))
  choose_slot-TakesSlot (suc (suc (suc slot))) from to mode p ready hf ht h = absurd (omega arith)

  -- On a lawful device with no locked region, with both ends of the range below 2^32 and the slot
  -- to use next below 3, enable_buffer_access succeeds. It sets the slot's two regions to the range
  -- from `from` to `to` with read and write access and no execution, and leaves every other region
  -- as it was; the turn passes to the next slot of the three; mode 0 forgets a remembered stack
  -- slot, and any other mode remembers this one.
  pub enable-Ranges :
      (from to mode : ℕ) (p : Pmp Dev)
      → IsReady metal p.dev
      → from < word_size
      → to < word_size
      → current_slot p.stack_pmp p.pmp_robin < 3
      → let slot = current_slot p.stack_pmp p.pmp_robin in
        (q : Pmp Dev) × (enable_buffer_access from to mode p ≡ some q)
        × IsReady metal q.dev
        × Ranges metal (2 * slot) (2 * slot + 1) from to 1 p.dev q.dev
        × (q.pmp_robin ≡ (slot + 1) % 3)
        × (q.stack_pmp ≡ (if mode == 0 then none else some slot))
  unfolding enable_buffer_access
  enable-Ranges from to mode p ready hf ht h =
      let slot = current_slot p.stack_pmp p.pmp_robin in
      let (q, e, (r, w, n, s)) = choose_slot-TakesSlot slot from to mode p ready hf ht h in
      elim (Bool-cases (mode == 0)) [
        | inl m ↦ (record q { stack_pmp = none }, rw (enable_buffer_access, e, m), r, w, n, rw m)
        | inr m ↦ (q, rw (enable_buffer_access, e, m), r, w, n, rw m (s ∙ rw m))
      ]

  clear_pair_lem :
      (start first second addr : ℕ) (d : Dev)
      → IsReady metal d
      → first < region_count
      → second < region_count
      → let off = leb addr (shl2 (metal.address d start)) in
        IsReady metal (clear_pair start first second addr d)
        × ((j : ℕ)
            → metal.config (clear_pair start first second addr d) j ≡ (
                if off && (j == first || j == second)
                then record (metal.config d j) { a = pmp_off }
                else metal.config d j))
        × ((j : ℕ) → metal.address (clear_pair start first second addr d) j ≡ metal.address d j)
  unfolding clear_pair
  clear_pair_lem start first second addr d ready h1 h2 =
      let d1 = (metal.set_address_mode d first pmp_off).1 in
      let r1 = set_mode-IsReady laws d ready first pmp_off h1 in
      let r2 = set_mode-IsReady laws d1 r1 second pmp_off h2 in
      let c1 = config-set_mode laws d ready first pmp_off h1 in
      let c2 = config-set_mode laws d1 r1 second pmp_off h2 in
      let a1 = address-set_mode laws d ready first pmp_off h1 in
      let a2 = address-set_mode laws d1 r1 second pmp_off h2 in
      elim (Bool-cases (leb addr (shl2 (metal.address d start)))) [
        | inl e ↦ rw e (r2, λ j. ground (arith, c1 j, c2 j), λ j. a2 j ∙ a1 j)
        | inr e ↦ rw e (ready, λ j. refl, λ j. refl)
      ]

  -- On a lawful device with no locked region, clear_buffer_access switches off exactly the six
  -- regions of the three pairs whose range begins at the address or above it, both regions of such
  -- a pair. All else stays: the other regions, what each region holds beside its mode, every
  -- address, and the slot to use next.
  pub clear_buffer_access-Closes :
      (addr : ℕ) (p : Pmp Dev)
      → IsReady metal p.dev
      → let q = clear_buffer_access addr p in
        IsReady metal q.dev
        × ((j : ℕ)
            → metal.config q.dev j ≡ (
                if ltb j 6 && leb addr (shl2 (metal.address p.dev (j / 2 * 2)))
                then record (metal.config p.dev j) { a = pmp_off }
                else metal.config p.dev j))
        × ((j : ℕ) → metal.address q.dev j ≡ metal.address p.dev j)
        × (q.pmp_robin ≡ p.pmp_robin)
        × (q.stack_pmp ≡ p.stack_pmp)
  unfolding clear_buffer_access
  clear_buffer_access-Closes addr p ready =
      let (r1, c1, a1) = clear_pair_lem 0 1 0 addr p.dev ready (omega arith) (omega arith) in
      let d1 = clear_pair 0 1 0 addr p.dev in
      let (r2, c2, a2) = clear_pair_lem 2 2 3 addr d1 r1 (omega arith) (omega arith) in
      let d2 = clear_pair 2 2 3 addr d1 in
      let (r3, c3, a3) = clear_pair_lem 4 4 5 addr d2 r2 (omega arith) (omega arith) in
      (
        r3,
        λ j. ground (arith, c3 j, a2 4, a1 4, c2 j, a1 2, c1 j),
        λ j. a3 j ∙ a2 j ∙ a1 j,
        refl,
        refl,
      )
