-- ===== src/User/Copies.antt =====
-- The loops of kernel/src/memcpy.c and kernel/src/memset.c, in either mode.
use sofie_os.Base.{ℕ, zero, suc, ◌%◌, ◌≡◌, refl, Bool-cases, inl, inr, true, ◌==◌, ==→eq, arith}
use sofie_os.Word.{add32}
use sofie_os.Memory.{Mem, store8}
use sofie_os.Bytes.{copy_up, fill}
use sofie_os.Metal.{Metal}
use sofie_os.Kernel.{Kernel, done}
use sofie_os.Syscall.{Libc}
use sofie_os.Trap.Defs.{priv_machine, priv_user}
use sofie_os.User.Defs.{Hart, access, load_byte, store_byte}
use sofie_os.User.Routines.{copy_loop, fill_loop}

module _ {Dev : Type 0} (hart : Hart Dev) where
  -- The `n` bytes from `a` on can be accessed: the kernel runs, or the PMP lets the accesses pass.
  abbrev pub Touches : ℕ → ℕ → Kernel Dev → Type 0
  Touches zero a k = Unit {0}
  Touches (suc n) a k =
      (k.privileges ≡ priv_user → hart.permits k.pmp.dev a ≡ true) × Touches n (add32 a 1) k

  Touches-mem :
      (n a : ℕ) (k : Kernel Dev) (m : Mem) → Touches n a k → Touches n a (record k { mem = m })
  Touches-mem zero a k m t = tt
  Touches-mem (suc n) a k m (t, ts) = (t, Touches-mem n (add32 a 1) k m ts)

  Touches-machine : (n a : ℕ) (k : Kernel Dev) → k.privileges ≡ priv_machine → Touches n a k
  Touches-machine zero a k h = tt
  Touches-machine (suc n) a k h = (λ e. absurd (omega arith), Touches-machine n (add32 a 1) k h)

module _ {Dev : Type 0} ⦃metal : Metal Dev⦄ (libc : Libc Dev) (rounds : ℕ) (hart : Hart Dev)
    (faults : ℕ) where
  load_byte_lem :
      (a : ℕ) (k : Kernel Dev)
      → (k.privileges ≡ priv_user → hart.permits k.pmp.dev a ≡ true)
      → load_byte libc rounds hart (suc faults) a k ≡ done (k.mem a) k
  unfolding load_byte access
  load_byte_lem a k h = elim (Bool-cases (k.privileges == priv_user)) [
    | inl user ↦ ground (arith, user, h (omega (arith, ==→eq k.privileges priv_user user)))
    | inr kernel ↦ ground (arith, kernel)
  ]

  pub store_byte_lem :
      (a v : ℕ) (k : Kernel Dev)
      → (k.privileges ≡ priv_user → hart.permits k.pmp.dev a ≡ true)
      → store_byte libc rounds hart (suc faults) a v k
        ≡ done tt (record k { mem = store8 k.mem a v })
  unfolding store_byte access
  store_byte_lem a v k h = elim (Bool-cases (k.privileges == priv_user)) [
    | inl user ↦ ground (arith, user, h (omega (arith, ==→eq k.privileges priv_user user)))
    | inr kernel ↦ ground (arith, kernel)
  ]

  -- Where the bytes of both ranges can be accessed, the loop of memcpy does what copy_up does to memory,
  -- and nothing else.
  pub copy_loop-copy_up :
      (n dst src : ℕ) (k : Kernel Dev)
      → Touches hart n dst k
      → Touches hart n src k
      → copy_loop libc rounds hart (suc faults) n dst src k
        ≡ done tt (record k { mem = copy_up n dst src k.mem })
  unfolding copy_loop copy_up
  copy_loop-copy_up zero dst src k d s = refl
  copy_loop-copy_up (suc n) dst src k (d, ds) (s, ss) =
      let m = store8 k.mem dst (k.mem src) in
      rw (load_byte_lem src k s, store_byte_lem dst (k.mem src) k d)
        (copy_loop-copy_up n (add32 dst 1) (add32 src 1) (record k { mem = m })
          (Touches-mem hart n (add32 dst 1) k m ds) (Touches-mem hart n (add32 src 1) k m ss))

  pub fill_loop-fill :
      (n dst val : ℕ) (k : Kernel Dev)
      → Touches hart n dst k
      → fill_loop libc rounds hart (suc faults) n dst val k
        ≡ done tt (record k { mem = fill n dst val k.mem })
  unfolding fill_loop fill
  fill_loop-fill zero dst val k d = refl
  fill_loop-fill (suc n) dst val k (d, ds) =
      let m = store8 k.mem dst (val % 0x100) in
      rw (store_byte_lem dst (val % 0x100) k d) (
        fill_loop-fill n (add32 dst 1) val (record k { mem = m })
          (Touches-mem hart n (add32 dst 1) k m ds))
