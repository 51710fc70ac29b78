-- ===== src/Pmp/Device.antt =====
-- Laws of a lawful device with no locked region, in the form that the proofs about pmp.c use: what
-- each region holds after a call.
use sofie_os.Base.{
  ℕ, ◌<◌, ◌≡◌, ◌∙◌, true, arith, ◌==◌, if◌then◌else◌, Bool-cases, inl, inr, ==→eq, not-==→ne,
}
use sofie_os.Word.{word_size}
use sofie_os.Metal.{Metal, Lawful, PmpConfig, pmp_unlocked, region_count}

pub record IsReady {Dev : Type 0} (metal : Metal Dev) (d : Dev) : Type 0 where
  pub here : metal.present d ≡ true
  pub unlocked : (i : ℕ) → i < region_count → (metal.config d i).l ≡ pmp_unlocked

module _ {Dev : Type 0} {metal : Metal Dev} (laws : Lawful metal) (d : Dev)
    (ready : IsReady metal d) where
  module _ (i : ℕ) (c : PmpConfig) (a : ℕ) (valid : i < region_count) where
    pub set_region-ok : (metal.set_region d i c a).0 ≡ 0
    set_region-ok = laws.set_region_ok d i c a ready.here valid (ready.unlocked i valid)

    pub config-set_region :
        (j : ℕ)
        → metal.config (metal.set_region d i c a).1 j ≡ (if i == j then c else metal.config d j)
    config-set_region j = elim (Bool-cases (i == j)) [
      | inl e ↦ rw e (
          rw (← ==→eq i j e)
            (laws.config_set_region d i c a ready.here valid (ready.unlocked i valid)))
      | inr e ↦ rw e (laws.config_set_region_ne d i j c a (not-==→ne i j e))
    ]

    pub address-set_region :
        (j : ℕ)
        → a < word_size
        → metal.address (metal.set_region d i c a).1 j ≡ (if i == j then a else metal.address d j)
    address-set_region j fits = elim (Bool-cases (i == j)) [
      | inl e ↦ rw e (
          rw (← ==→eq i j e)
            (laws.address_set_region d i c a ready.here valid fits (ready.unlocked i valid)))
      | inr e ↦ rw e (laws.address_set_region_ne d i j c a (not-==→ne i j e))
    ]

    pub set_region-IsReady : c.l ≡ pmp_unlocked → IsReady metal (metal.set_region d i c a).1
    set_region-IsReady u = record {
      here = laws.set_region_present d i c a ∙ ready.here;
      unlocked = λ j b. ground (arith, config-set_region j, ready.unlocked j b);
    }

  module _ (i a : ℕ) (valid : i < region_count) where
    pub set_mode-ok : (metal.set_address_mode d i a).0 ≡ 0
    set_mode-ok = laws.set_mode_ok d i a ready.here valid (ready.unlocked i valid)

    pub config-set_mode :
        (j : ℕ)
        → metal.config (metal.set_address_mode d i a).1 j
          ≡ (if i == j then record (metal.config d j) { a = a } else metal.config d j)
    config-set_mode j = elim (Bool-cases (i == j)) [
      | inl e ↦ rw e (
          rw (← ==→eq i j e) (laws.config_set_mode d i a ready.here valid (ready.unlocked i valid)))
      | inr e ↦ rw e (laws.config_set_mode_ne d i j a (not-==→ne i j e))
    ]

    pub address-set_mode :
        (j : ℕ) → metal.address (metal.set_address_mode d i a).1 j ≡ metal.address d j
    address-set_mode j = laws.address_set_mode d i j a

    pub set_mode-IsReady : IsReady metal (metal.set_address_mode d i a).1
    set_mode-IsReady = record {
      here = laws.set_mode_present d i a ∙ ready.here;
      unlocked = λ j b. ground (arith, config-set_mode j, ready.unlocked j b);
    }
