-- ===== src/Metal/Regs.antt =====
-- A device that is nothing but its registers, at which the tests run. It meets `Lawful`.
use sofie_os.Base.{ℕ, ◌%◌, ◌==◌, ltb, if◌then◌else◌, true, ◌&&◌, arith}
use sofie_os.Metal.{PmpConfig, pmp_unlocked, region_count, Metal, Lawful}
use sofie_os.Word.{word_size}

pub record Region : Type 0 where
  pub config : PmpConfig
  pub address : ℕ

abbrev pub Regs : Type 0
Regs = ℕ → Region

abbrev pub writable : Regs → ℕ → ℕ
writable d i = if ltb i region_count && (d i).config.l == pmp_unlocked then 0 else 4

abbrev pub put : Regs → ℕ → Region → Regs
put d i r j = if i == j && writable d i == 0 then r else d j

instance abbrev pub metal_regs : Metal Regs
metal_regs = record {
  present = λ d. true;
  init = λ d i. record (d i) { config = record { l = 0; a = 0; x = 0; w = 0; r = 0 } };
  set_region = λ d i c a. (writable d i, put d i (record { config = c; address = a % word_size }));
  set_address_mode =
      λ d i a. (writable d i, put d i (record (d i) { config = record (d i).config { a = a } }));
  read_code = λ d i. if ltb i region_count then 0 else 2;
  config = λ d i. (d i).config;
  address = λ d i. (d i).address;
}

abbrev pub off_config : PmpConfig
off_config = record { l = 0; a = 0; x = 0; w = 0; r = 0 }

abbrev pub blank_regs : Regs
blank_regs i = record { config = off_config; address = 0 }

pub metal_regs-Lawful : Lawful metal_regs
metal_regs-Lawful = record {
  set_region_ok = λ d i c a p b u. ground arith;
  set_region_present = λ d i c a. ground arith;
  config_set_region = λ d i c a p b u. ground arith;
  address_set_region = λ d i c a p b s u. ground arith;
  config_set_region_ne = λ d i j c a n. ground arith;
  address_set_region_ne = λ d i j c a n. ground arith;
  set_mode_ok = λ d i a p b u. ground arith;
  set_mode_present = λ d i a. ground arith;
  config_set_mode = λ d i a p b u. ground arith;
  config_set_mode_ne = λ d i j a n. ground arith;
  address_set_mode = λ d i j a. ground arith;
}
