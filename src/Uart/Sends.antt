-- ===== src/Uart/Sends.antt =====
-- What uart_send and uart_getchar of kernel/src/uart.c do.
use mathlib.Core.List.{map}
use sofie_os.Base.{
  ℕ, suc, ◌%◌, ◌≤◌, ◌<◌, ◌≡◌, some, List, [], ◌∷◌, ◌++◌, ltb, if◌then◌else◌, length, All, arith,
  Bool-cases, inl, inr, refl,
}
use sofie_os.Uart.Defs.{wait_ready, uart_putchar, uart_send, uart_getchar}

-- How often the transmit register is found not full.
unfoldable pub ready_reads : List ℕ → ℕ
ready_reads [] = 0
ready_reads (status ∷ later) =
    if ltb 0xff status then ready_reads later else suc (ready_reads later)

wait_ready-some :
    (reads : List ℕ) (n : ℕ)
    → n < ready_reads reads
    → (later : List ℕ) × (wait_ready reads ≡ some later) × (n ≤ ready_reads later)
unfolding wait_ready ready_reads
wait_ready-some [] n h = absurd (omega arith)
wait_ready-some (status ∷ later) n h = elim (Bool-cases (ltb 0xff status)) [
  | inl full ↦ rw full (wait_ready-some later n (ground arith))
  | inr free ↦ rw free (later, refl, ground arith)
]

-- Where the transmit register is found not full at least once for each character, uart_send comes to an
-- end and has written the low byte of each character, in order.
pub uart_send_lem :
    (string reads : List ℕ)
    → length string ≤ ready_reads reads
    → (later : List ℕ) × (uart_send string reads ≡ some (map (λ c. c % 0x100) string, later))
unfolding uart_send uart_putchar
uart_send_lem [] reads h = (reads, refl)
uart_send_lem (c ∷ rest) reads h =
    let (left, ready, enough) = wait_ready-some reads (length rest) (omega arith) in
    let (last, sent) = uart_send_lem rest left enough in (last, ground (arith, ready, sent))

-- Where the receive register reads empty any number of times and then holds a byte, uart_getchar
-- returns that byte and has read nothing beyond it.
pub uart_getchar_lem :
    (empty later : List ℕ) (c : ℕ)
    → All (λ (x : ℕ). 0xff < x) empty
    → c ≤ 0xff
    → uart_getchar (empty ++ c ∷ later) ≡ some (c, later)
unfolding uart_getchar
uart_getchar_lem [] later c h b = ground arith
uart_getchar_lem (x ∷ empty) later c h b = ground (arith, uart_getchar_lem empty later c h.1 b)
