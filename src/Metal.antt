-- ===== src/Metal.antt =====
-- The interface of freedom-metal's PMP driver (freedom-metal/metal/pmp.h), which the kernel calls and
-- which is not modelled: `Dev` is the state of the device, and `Metal` the calls on it. `Lawful`
-- states what their documentation promises: a region that is not locked can be set, reads back as
-- it was set, and no other region changes.
pub mod Regs
use sofie_os.Base.{ℕ, ◌<◌, ◌≡◌, ◌≢◌, Bool, true}
use sofie_os.Word.{word_size}

-- struct metal_pmp_config
pub record PmpConfig : Type 0 where
  pub l : ℕ
  pub a : ℕ
  pub x : ℕ
  pub w : ℕ
  pub r : ℕ

-- enum metal_pmp_address_mode
abbrev pub pmp_off : ℕ
pmp_off = 0

abbrev pub pmp_tor : ℕ
pmp_tor = 1

-- METAL_PMP_UNLOCKED
abbrev pub pmp_unlocked : ℕ
pmp_unlocked = 0

pub record Metal (Dev : Type 0) : Type 0 where
  -- metal_pmp_get_device does not return NULL
  pub present : Dev → Bool
  pub init : Dev → Dev
  -- return code and new state
  pub set_region : Dev → ℕ → PmpConfig → ℕ → ℕ × Dev
  pub set_address_mode : Dev → ℕ → ℕ → ℕ × Dev
  -- metal_pmp_get_region: the return code and what it stores
  pub read_code : Dev → ℕ → ℕ
  pub config : Dev → ℕ → PmpConfig
  pub address : Dev → ℕ → ℕ

-- Number of regions of the board's hart.
abbrev pub region_count : ℕ
region_count = 8

pub record Lawful {Dev : Type 0} (m : Metal Dev) : Type 0 where
  pub set_region_ok :
      (d : Dev) (i : ℕ) (c : PmpConfig) (a : ℕ)
      → m.present d ≡ true
      → i < region_count
      → (m.config d i).l ≡ pmp_unlocked
      → (m.set_region d i c a).0 ≡ 0
  pub set_region_present :
      (d : Dev) (i : ℕ) (c : PmpConfig) (a : ℕ) → m.present (m.set_region d i c a).1 ≡ m.present d
  pub config_set_region :
      (d : Dev) (i : ℕ) (c : PmpConfig) (a : ℕ)
      → m.present d ≡ true
      → i < region_count
      → (m.config d i).l ≡ pmp_unlocked
      → m.config (m.set_region d i c a).1 i ≡ c
  pub address_set_region :
      (d : Dev) (i : ℕ) (c : PmpConfig) (a : ℕ)
      → m.present d ≡ true
      → i < region_count
      → a < word_size
      → (m.config d i).l ≡ pmp_unlocked
      → m.address (m.set_region d i c a).1 i ≡ a
  pub config_set_region_ne :
      (d : Dev) (i j : ℕ) (c : PmpConfig) (a : ℕ)
      → i ≢ j
      → m.config (m.set_region d i c a).1 j ≡ m.config d j
  pub address_set_region_ne :
      (d : Dev) (i j : ℕ) (c : PmpConfig) (a : ℕ)
      → i ≢ j
      → m.address (m.set_region d i c a).1 j ≡ m.address d j
  pub set_mode_ok :
      (d : Dev) (i a : ℕ)
      → m.present d ≡ true
      → i < region_count
      → (m.config d i).l ≡ pmp_unlocked
      → (m.set_address_mode d i a).0 ≡ 0
  pub set_mode_present : (d : Dev) (i a : ℕ) → m.present (m.set_address_mode d i a).1 ≡ m.present d
  pub config_set_mode :
      (d : Dev) (i a : ℕ)
      → m.present d ≡ true
      → i < region_count
      → (m.config d i).l ≡ pmp_unlocked
      → m.config (m.set_address_mode d i a).1 i ≡ record (m.config d i) { a = a }
  pub config_set_mode_ne :
      (d : Dev) (i j a : ℕ) → i ≢ j → m.config (m.set_address_mode d i a).1 j ≡ m.config d j
  pub address_set_mode :
      (d : Dev) (i j a : ℕ) → m.address (m.set_address_mode d i a).1 j ≡ m.address d j
