-- ===== src/User/Framed.antt =====
-- memcpy, umemset and uprintf in user mode: kernel/src/memcpy.c, kernel/src/memset.c and
-- kernel/src/uprintf.c.
use sofie_os.Base.{
  ℕ, suc, ◌≡◌, ◌==◌, if◌then◌else◌, some, set, set-set, get_elem?, ltb, get_elem?-lt,
  get_elem?-set_self, arith,
}
use sofie_os.Word.{add32, sub32}
use sofie_os.Metal.{Metal}
use sofie_os.Bytes.{fill}
use sofie_os.Kernel.{Stack, Task, TrapFrame, Kernel, done, ◌>>=◌, get}
use sofie_os.Syscall.{Libc, sys_printf, argraw}
use sofie_os.Stack.{top_stack}
use sofie_os.Stack.Frames.{IsCalling}
use sofie_os.Trap.Defs.{priv_user, priv_machine}
use sofie_os.User.Defs.{Hart, ecall2}
use sofie_os.User.Stubs.{sofie_printf}
use sofie_os.User.Routines.{umemset, fill_loop, uprintf}
use sofie_os.User.Calls.{find_syscall_numbers, called_task, called, given, ecall-returns}
use sofie_os.User.Copies.{Touches, fill_loop-fill}
use sofie_os.User.Sys
use sofie_os.User.Frames.{entry, caller, framed, framed_task, behind, left, framed_body}

-- Where sys_printf finds an argument list: one above the current stack lies in the previous one.
abbrev pub list_at : Stack → ℕ → ℕ
list_at s argptr =
    let end = add32 s.bottom s.length in
    if ltb end argptr then add32 s.fp (sub32 argptr end) else argptr

module _ {Dev : Type 0} ⦃metal : Metal Dev⦄ (hart : Hart Dev) (k : Kernel Dev) (i : ℕ) (t : Task)
    (s : Stack) (c : IsCalling (entry hart k i t s) i (caller hart k i t s) s)
    (format argptr : ℕ) where
  -- The state in which sys_printf runs, and the caller behind the call, which returned `v`.
  abbrev pub printing : Kernel Dev
  printing =
      called hart Sys.printf (λ f. record f { a0 = format; a1 = argptr }) i (framed hart k i t s c)
        (framed_task hart k i t s c)

  abbrev pub printed : ℕ → Task
  printed v = given v (
      called_task hart Sys.printf (λ f. record f { a0 = format; a1 = argptr })
        (framed hart k i t s c) (framed_task hart k i t s c))

module _ {Dev : Type 0} ⦃metal : Metal Dev⦄ (libc : Libc Dev) (rounds : ℕ) (hart : Hart Dev)
    (k : Kernel Dev) (i : ℕ) (t : Task) (s : Stack)
    (c : IsCalling (entry hart k i t s) i (caller hart k i t s) s) (current : k.current ≡ some i)
    (task : get_elem? k.tasks i ≡ some t) (user : k.privileges ≡ priv_user) where
  -- umemset in user mode, under the same conditions for the one range: it returns `dst`, and the state is
  -- as after memcpy, but that memory has changed as by fill.
  pub umemset-fills :
      (faults dst val n : ℕ)
      → Touches hart n dst (framed hart k i t s c)
      → let m = fill n dst val k.mem in
        let mid = framed_task hart k i t s c in
        (hart.registers (behind hart k i t s c m mid)).sp ≡ (hart.registers k).sp
        → umemset libc rounds hart (suc faults) dst val n k ≡ done dst (left hart k i t s c m mid)
  unfolding umemset
  umemset-fills faults dst val n d same =
      framed_body libc rounds hart k i t s c current task user (fill n dst val k.mem)
        (framed_task hart k i t s c) c.stacks same
        (fill_loop libc rounds hart (suc faults) n dst val) (λ _. dst) tt
        (fill_loop-fill libc rounds hart faults n dst val (framed hart k i t s c) d)

  printf-run :
      (format argptr v : ℕ)
      → libc.vprintf format (list_at s argptr) (printing hart k i t s c format argptr)
        ≡ done v (printing hart k i t s c format argptr)
      → sofie_printf libc rounds hart format argptr (framed hart k i t s c)
        ≡ done v (behind hart k i t s c k.mem (printed hart k i t s c format argptr v))
  unfolding sofie_printf ecall2 sys_printf argraw top_stack
  printf-run format argptr v prints =
      let now = framed hart k i t s c in
      let mid = framed_task hart k i t s c in
      let args = λ (f : TrapFrame). record f { a0 = format; a1 = argptr } in
      let one = called_task hart Sys.printf args now mid in
      let lt = get_elem?-lt k.tasks i t task in
      let at_mid : get_elem? (set k.tasks i mid) i ≡ some mid =
        get_elem?-set_self k.tasks i mid lt in
      let at_one : get_elem? (set (set k.tasks i mid) i one) i ≡ some one =
        rw (set-set k.tasks i mid one) (get_elem?-set_self k.tasks i one lt) in
      let run : sys_printf libc (printing hart k i t s c format argptr)
          ≡ done v (printing hart k i t s c format argptr) =
        ground (arith, current, at_one, c.stacks, prints) in
      let numbers = find_syscall_numbers libc rounds in
      let call =
        ecall-returns libc rounds hart Sys.printf args (sys_printf libc) i v mid one now
          (printing hart k i t s c format argptr) current at_mid numbers.13 run current at_one in
      ground (
        arith,
        call,
        set-set k.tasks i mid one,
        set-set k.tasks i one (given v one),
        set-set k.tasks i mid (given v one),
      )

  -- uprintf in user mode, under the same conditions, where vprintf changes nothing of the kernel's state:
  -- it returns what vprintf returns for the format and the argument list, which is looked up in the
  -- previous stack if it lies above the current one. The buffer entries and memory are the same as before.
  pub uprintf-prints :
      (format argptr v : ℕ)
      → libc.vprintf format (list_at s argptr) (printing hart k i t s c format argptr)
        ≡ done v (printing hart k i t s c format argptr)
      → let mid = printed hart k i t s c format argptr v in
        (hart.registers (behind hart k i t s c k.mem mid)).sp ≡ (hart.registers k).sp
        → uprintf libc rounds hart format argptr k ≡ done v (left hart k i t s c k.mem mid)
  unfolding uprintf sofie_printf ecall2
  uprintf-prints format argptr v prints same =
      framed_body libc rounds hart k i t s c current task user k.mem
        (printed hart k i t s c format argptr v) c.stacks same
        (do
          k ← get
          if k.privileges == priv_machine
              then libc.vprintf format argptr
              else sofie_printf libc rounds hart format argptr)
        (λ w. w) v (printf-run format argptr v prints)
