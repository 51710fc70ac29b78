-- ===== src/Uart/Tests.antt =====
-- Runs of the functions of kernel/src/uart.c.
use sofie_os.Base.{◌≡◌, refl, some, [], ◌∷◌}
use sofie_os.Uart.{uart_getchar}

uart_getchar_test : uart_getchar (0x80000000 ∷ 0x41 ∷ 0x42 ∷ []) ≡ some (0x41, 0x42 ∷ [])
unfolding uart_getchar
uart_getchar_test = refl
