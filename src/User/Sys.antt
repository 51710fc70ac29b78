-- ===== src/User/Sys.antt =====
-- The numbers of the system calls, from kernel/syscall.h.
use sofie_os.Base.{ℕ}

abbrev pub dump_pmp : ℕ
dump_pmp = 1

abbrev pub set_protected_stack_top : ℕ
set_protected_stack_top = 2

abbrev pub restore_protected_stack_top : ℕ
restore_protected_stack_top = 3

abbrev pub malloc : ℕ
malloc = 4

abbrev pub free : ℕ
free = 5

abbrev pub change_owner : ℕ
change_owner = 6

abbrev pub new_task : ℕ
new_task = 7

abbrev pub post_message : ℕ
post_message = 8

abbrev pub get_message : ℕ
get_message = 9

abbrev pub acquire_sleep_lock : ℕ
acquire_sleep_lock = 10

abbrev pub release_sleep_lock : ℕ
release_sleep_lock = 11

abbrev pub wait_semaphore : ℕ
wait_semaphore = 12

abbrev pub post_semaphore : ℕ
post_semaphore = 13

abbrev pub printf : ℕ
printf = 14

abbrev pub memcpy : ℕ
memcpy = 15

abbrev pub rand : ℕ
rand = 16
