-- ===== src/Uart.antt =====
-- kernel/src/uart.c: the serial port. A device register is read through the list of the values that its
-- coming reads give; the wait for it has no end where that list runs out, which is `none`.
mod Defs
pub mod Sends
mod Tests
unfoldable pub use Defs.{uart_init, uart_putchar, uart_send, uart_getchar}
