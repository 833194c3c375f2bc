-- ===== src/Errno.antt =====
-- ep/ep_define.h: the return codes of the library ep. A failed call that has no code of its own
-- returns -1.
use eparallel.Common.{ℤ, negsuc}

abbrev pub fail : ℤ
fail = negsuc 0

abbrev pub ep_thread_crete_fail : ℤ
ep_thread_crete_fail = negsuc 9999

abbrev pub ep_thread_has_start : ℤ
ep_thread_has_start = negsuc 10000

abbrev pub ep_has_been_inited : ℤ
ep_has_been_inited = negsuc 10002

abbrev pub ep_can_not_free_when_running : ℤ
ep_can_not_free_when_running = negsuc 10004

abbrev pub ep_has_not_been_inited : ℤ
ep_has_not_been_inited = negsuc 10005

abbrev pub ep_too_busy : ℤ
ep_too_busy = negsuc 10006

abbrev pub ep_master_start_fail : ℤ
ep_master_start_fail = negsuc 10007

abbrev pub ep_do_not_start : ℤ
ep_do_not_start = negsuc 10008

abbrev pub ep_exit_for_null_task : ℤ
ep_exit_for_null_task = negsuc 10009

abbrev pub ep_invalid_task_priority : ℤ
ep_invalid_task_priority = negsuc 10011

abbrev pub ep_invalid_argu : ℤ
ep_invalid_argu = negsuc 10012

abbrev pub ep_task_not_in_queue : ℤ
ep_task_not_in_queue = negsuc 10013
