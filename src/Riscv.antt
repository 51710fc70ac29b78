-- ===== src/Riscv.antt =====
-- kernel/riscv.h: the registers of the hart that the kernel reads and writes by single instructions.
pub mod Interrupts
use Prim.Native.Nat.{bit_or}
use sofie_os.Base.{ℕ, ◌^◌}
use sofie_os.Word.{clear_bit}

pub record Registers : Type 0 where
  pub mhartid : ℕ
  pub mcause : ℕ
  pub mstatus : ℕ
  pub mepc : ℕ
  pub mtval : ℕ
  pub mie : ℕ
  pub mtvec : ℕ
  pub mscratch : ℕ
  pub time : ℕ
  pub fp : ℕ
  pub sp : ℕ
  pub gp : ℕ
  pub tp : ℕ
  pub ra : ℕ

-- All registers are 0.
abbrev pub blank_registers : Registers
blank_registers = record {
  mhartid = 0;
  mcause = 0;
  mstatus = 0;
  mepc = 0;
  mtval = 0;
  mie = 0;
  mtvec = 0;
  mscratch = 0;
  time = 0;
  fp = 0;
  sp = 0;
  gp = 0;
  tp = 0;
  ra = 0;
}

abbrev pub r_mhartid : Registers → ℕ
r_mhartid h = h.mhartid

abbrev pub r_mcause : Registers → ℕ
r_mcause h = h.mcause

abbrev pub r_mstatus : Registers → ℕ
r_mstatus h = h.mstatus

abbrev pub w_mstatus : ℕ → Registers → Registers
w_mstatus x h = record h { mstatus = x }

abbrev pub w_mepc : ℕ → Registers → Registers
w_mepc x h = record h { mepc = x }

abbrev pub r_mepc : Registers → ℕ
r_mepc h = h.mepc

abbrev pub r_mtval : Registers → ℕ
r_mtval h = h.mtval

abbrev pub r_mie : Registers → ℕ
r_mie h = h.mie

abbrev pub w_mie : ℕ → Registers → Registers
w_mie x h = record h { mie = x }

abbrev pub w_mtvec : ℕ → Registers → Registers
w_mtvec x h = record h { mtvec = x }

abbrev pub w_mscratch : ℕ → Registers → Registers
w_mscratch x h = record h { mscratch = x }

abbrev pub r_time : Registers → ℕ
r_time h = h.time

abbrev pub r_fp : Registers → ℕ
r_fp h = h.fp

abbrev pub r_sp : Registers → ℕ
r_sp h = h.sp

abbrev pub r_gp : Registers → ℕ
r_gp h = h.gp

abbrev pub r_tp : Registers → ℕ
r_tp h = h.tp

abbrev pub w_tp : ℕ → Registers → Registers
w_tp x h = record h { tp = x }

abbrev pub r_ra : Registers → ℕ
r_ra h = h.ra

-- MSTATUS_MIE and MIE_MTIE
abbrev pub mstatus_mie : ℕ
mstatus_mie = 2 ^ 3

abbrev pub mie_mtie : ℕ
mie_mtie = 2 ^ 7

unfoldable pub intr_off : Registers → Registers
intr_off h = w_mstatus (clear_bit 3 (r_mstatus h)) h

unfoldable pub intr_on : Registers → Registers
intr_on h = w_mstatus (bit_or (r_mstatus h) mstatus_mie) h
