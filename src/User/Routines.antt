-- ===== src/User/Routines.antt =====
-- kernel/src/memcpy.c, kernel/src/memset.c, kernel/src/uprintf.c and kernel/src/uassert.c in both
-- modes.
use sofie_os.Base.{ℕ, zero, suc, ◌%◌, ◌==◌, if◌then◌else◌}
use sofie_os.Word.{add32}
use sofie_os.Metal.{Metal}
use sofie_os.Kernel.{Kernel, Cmd, panicked, ◌>>=◌, ◌>>◌, get, pure}
use sofie_os.Syscall.{Libc}
use sofie_os.Trap.Defs.{priv_machine}
use sofie_os.User.Defs.{Hart, load_byte, store_byte, if_user}
use sofie_os.User.Stubs.{sofie_printf, sofie_set_protected_stack, sofie_restore_protected_stack}

module _ {Dev : Type 0} ⦃metal : Metal Dev⦄ (libc : Libc Dev) (rounds : ℕ) (hart : Hart Dev) where
  abbrev pub close_frame : Cmd (Kernel Dev) (Unit {0})
  close_frame = if_user (sofie_set_protected_stack libc rounds hart)

  abbrev pub open_frame : Cmd (Kernel Dev) (Unit {0})
  open_frame = if_user (sofie_restore_protected_stack libc rounds hart)

  -- The loop of memcpy, for `n` bytes. Each access may fault `faults` times.
  unfoldable pub copy_loop : ℕ → ℕ → ℕ → ℕ → Cmd (Kernel Dev) (Unit {0})
  copy_loop faults zero dst src = pure tt
  copy_loop faults (suc n) dst src = do
    v ← load_byte libc rounds hart faults src
    store_byte libc rounds hart faults dst v
    copy_loop faults n (add32 dst 1) (add32 src 1)

  unfoldable pub memcpy : ℕ → ℕ → ℕ → ℕ → Cmd (Kernel Dev) ℕ
  memcpy faults dst src size = do close_frame; copy_loop faults size dst src; open_frame; pure dst

  unfoldable pub fill_loop : ℕ → ℕ → ℕ → ℕ → Cmd (Kernel Dev) (Unit {0})
  fill_loop faults zero dst val = pure tt
  fill_loop faults (suc n) dst val = do
    store_byte libc rounds hart faults dst (val % 0x100)
    fill_loop faults n (add32 dst 1) val

  unfoldable pub umemset : ℕ → ℕ → ℕ → ℕ → Cmd (Kernel Dev) ℕ
  umemset faults dst val size = do close_frame; fill_loop faults size dst val; open_frame; pure dst

  -- `argptr` is what va_start makes.
  unfoldable pub uprintf : ℕ → ℕ → Cmd (Kernel Dev) ℕ
  uprintf format argptr = do
    close_frame
    k ← get
    ret ←
        if k.privileges == priv_machine
        then libc.vprintf format argptr
        else sofie_printf libc rounds hart format argptr
    open_frame
    pure ret

  -- `text` is the address of "ASSERT!".
  unfoldable pub uassert : ℕ → ℕ → ℕ → Cmd (Kernel Dev) (Unit {0})
  uassert text argptr c = do
    sofie_set_protected_stack libc rounds hart
    (if c == 0 then (do uprintf text argptr; panicked) else pure tt)
    sofie_restore_protected_stack libc rounds hart
