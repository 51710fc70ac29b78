-- ===== src/User/Programs.antt =====
-- src/main.c: the tasks that measure the kernel, up to the loop that each of them ends in.
use sofie_os.Base.{ℕ, zero, suc, ◌+◌, ◌*◌}
use sofie_os.Word.{add32}
use sofie_os.Metal.{Metal}
use sofie_os.Kernel.{Kernel, Cmd, ◌>>=◌, ◌>>◌, pure}
use sofie_os.Syscall.{Libc}
use sofie_os.Bench.{page_size}
use sofie_os.User.Defs.{Hart}
use sofie_os.User.Stubs.{sofie_set_protected_stack, sofie_restore_protected_stack}
use sofie_os.User.Routines.{memcpy, uprintf}

module _ {Dev : Type 0} ⦃metal : Metal Dev⦄ (libc : Libc Dev) (rounds : ℕ) (hart : Hart Dev) where
  -- BENCH_FIB_RECURSIVE: fib with the calls that close its frame. An int is its 32 bits; `n` is not
  -- negative.
  unfoldable pub fib : ℕ → Cmd (Kernel Dev) ℕ
  fib zero = do
    sofie_set_protected_stack libc rounds hart
    sofie_restore_protected_stack libc rounds hart
    pure 1
  fib (suc zero) = do
    sofie_set_protected_stack libc rounds hart
    sofie_restore_protected_stack libc rounds hart
    pure 1
  fib (suc (suc n)) = do
    sofie_set_protected_stack libc rounds hart
    a ← fib (suc n)
    b ← fib n
    sofie_restore_protected_stack libc rounds hart
    pure (add32 a b)

  -- real_main of BENCH_FIB_RECURSIVE. What it prints are the ticks, the calls and the misses.
  unfoldable pub fib_main : ℕ → ℕ → Cmd (Kernel Dev) (Unit {0})
  fib_main format argptr = do
    sofie_set_protected_stack libc rounds hart
    fib 10
    uprintf libc rounds hart format argptr
    pure tt

  -- BENCH_LFS: the block device, over the array at `fs`.
  unfoldable pub block_read : ℕ → ℕ → ℕ → ℕ → ℕ → ℕ → Cmd (Kernel Dev) ℕ
  block_read faults fs block off buffer size = do
    sofie_set_protected_stack libc rounds hart
    memcpy libc rounds hart faults buffer (fs + block * page_size + off) size
    sofie_restore_protected_stack libc rounds hart
    pure 0

  unfoldable pub block_prog : ℕ → ℕ → ℕ → ℕ → ℕ → ℕ → Cmd (Kernel Dev) ℕ
  block_prog faults fs block off buffer size = do
    sofie_set_protected_stack libc rounds hart
    memcpy libc rounds hart faults (fs + block * page_size + off) buffer size
    sofie_restore_protected_stack libc rounds hart
    pure 0
