-- ===== src/User/Stubs.antt =====
-- The stubs of kernel/src/syscall.S, with the types that kernel/sofie.h gives them.
use sofie_os.Base.{ℕ}
use sofie_os.Metal.{Metal}
use sofie_os.Kernel.{Kernel, Cmd, ◌>>◌, pure}
use sofie_os.Syscall.{Libc}
use sofie_os.User.Defs.{Hart, ecall, ecall0, ecall1, ecall2}
use sofie_os.User.Sys

module _ {Dev : Type 0} ⦃metal : Metal Dev⦄ (libc : Libc Dev) (rounds : ℕ) (hart : Hart Dev) where
  unfoldable pub sofie_dump_pmp : Cmd (Kernel Dev) (Unit {0})
  sofie_dump_pmp = do ecall0 libc rounds hart Sys.dump_pmp; pure tt

  unfoldable pub sofie_set_protected_stack : Cmd (Kernel Dev) (Unit {0})
  sofie_set_protected_stack = do ecall0 libc rounds hart Sys.set_protected_stack_top; pure tt

  unfoldable pub sofie_restore_protected_stack : Cmd (Kernel Dev) (Unit {0})
  sofie_restore_protected_stack = do
    ecall0 libc rounds hart Sys.restore_protected_stack_top
    pure tt

  unfoldable pub umalloc : ℕ → Cmd (Kernel Dev) ℕ
  umalloc size = ecall1 libc rounds hart Sys.malloc size

  unfoldable pub ufree : ℕ → Cmd (Kernel Dev) (Unit {0})
  ufree addr = do ecall1 libc rounds hart Sys.free addr; pure tt

  unfoldable pub sofie_change_owner : ℕ → ℕ → Cmd (Kernel Dev) (Unit {0})
  sofie_change_owner addr tid = do ecall2 libc rounds hart Sys.change_owner addr tid; pure tt

  unfoldable pub sofie_new_task : ℕ → Cmd (Kernel Dev) ℕ
  sofie_new_task task_entry = ecall1 libc rounds hart Sys.new_task task_entry

  unfoldable pub sofie_post_message : ℕ → ℕ → Cmd (Kernel Dev) (Unit {0})
  sofie_post_message tid msg = do ecall2 libc rounds hart Sys.post_message tid msg; pure tt

  unfoldable pub sofie_get_message : Cmd (Kernel Dev) ℕ
  sofie_get_message = ecall0 libc rounds hart Sys.get_message

  unfoldable pub sofie_acquire_mutex : ℕ → Cmd (Kernel Dev) (Unit {0})
  sofie_acquire_mutex lock = do ecall1 libc rounds hart Sys.acquire_sleep_lock lock; pure tt

  unfoldable pub sofie_release_mutex : ℕ → Cmd (Kernel Dev) (Unit {0})
  sofie_release_mutex lock = do ecall1 libc rounds hart Sys.release_sleep_lock lock; pure tt

  unfoldable pub sofie_wait_semaphore : ℕ → Cmd (Kernel Dev) (Unit {0})
  sofie_wait_semaphore sem = do ecall1 libc rounds hart Sys.wait_semaphore sem; pure tt

  unfoldable pub sofie_post_semaphore : ℕ → Cmd (Kernel Dev) (Unit {0})
  sofie_post_semaphore sem = do ecall1 libc rounds hart Sys.post_semaphore sem; pure tt

  unfoldable pub sofie_printf : ℕ → ℕ → Cmd (Kernel Dev) ℕ
  sofie_printf format arglist = ecall2 libc rounds hart Sys.printf format arglist

  unfoldable pub sofie_memcpy : ℕ → ℕ → ℕ → Cmd (Kernel Dev) ℕ
  sofie_memcpy dst src size =
      ecall libc rounds hart Sys.memcpy (λ f. record f { a0 = dst; a1 = src; a2 = size })

  unfoldable pub sofie_rand : Cmd (Kernel Dev) ℕ
  sofie_rand = ecall0 libc rounds hart Sys.rand
