-- ===== src/Lib.antt =====
-- eparallel: a library for parallel jobs in C++, with an event-driven network layer and a task
-- queue on disk, and a register machine. Six of its parts are modelled.
--
-- ep, the jobs. A `job` has child tasks; `run` hands one callback for each to a `thread_pool`,
-- whose permanent and temporary `thread`s take them from a `task_queue` of 32 priorities behind
-- one semaphore. A callback calls the child, retries it or reports to the job that it is finished;
-- the job tells its combiner and gives its own semaphore, on which the owner waits.
--   TaskQueue        `task_queue` of ep/ep_thread_pool.cpp with the semaphore of be/be_thread.cpp.
--                    Spec is its contract, a map of priorities to lists; Threads has the steps of
--                    any number of threads between the semaphore and the lock.
--   Worker           `thread`, `permanent_thread` and `temporary_thread` of the same file.
--   Pool             `thread_pool` of the same file: init, free, add_task, the master's check.
--   Job              `childtask`, `ctfcb` and `job` of ep/ep_job.cpp and ep/ep_job.h. Job/Counts
--                    has what each operation does to the counters; Job/Steps has the owner and
--                    the pool's threads as steps, with what has become of each child beside them,
--                    and Job/Handlers the parts of `handle_child_task_finish` in any order.
--   Parallel         `parallel` of ep/ep.cpp: the jobs by their ids.
-- efnfw, the network layer.
--   LoopBuf          `loop_buf` of efnfw/ef_loop_buf.cpp, in whose block `memmove` has no result
--                    when it would leave it. LoopBuf/Contents has the bytes in it as a list.
--   Net              Time: times and the order of the timers' keys, of efnfw/ef_timer.cpp and
--                    efnfw/ef_net_thread.h. Thread: timers, connections and waiting operations of
--                    efnfw/ef_net_thread.cpp. Conn: what a connection sends and is notified of, of
--                    efnfw/ef_connection.cpp; Conn/Pending has what is still to be sent, Conn/Send
--                    the answers of a socket. Read: its input, over LoopBuf. Life: its timers and
--                    its end. MsgQueue: `msg_queue` of efnfw/ef_msg_queue.cpp, any number of
--                    threads in it as steps. Message: the digits of efnfw/ef_message.cpp. Sock:
--                    `tcp_nb_receive` of efnfw/ef_sock.cpp.
-- equeue, the queue with a log.
--   OpLog            `save_op_to_buf` and `load_op_from_buf` of equeue/equeue_imp.cpp.
--   EventQueue       `eq_imp` of the same file: the tasks in memory and the log file that is open.
-- elog, the logging.
--   Base64           elog/base64.cpp: strings as lists of bytes.
-- be, the base library.
--   Be               Des: the functions of be/be_des.cpp that pad a message and cut it into groups,
--                    over any block cipher. Fifo: the lock-free `fifo` of be/be_fifo.h, any number
--                    of threads in it as steps, one for each access to what they share; the ranks
--                    of their exchanges are kept beside. HashMap: `hash_map` of be/be_hash_map.h,
--                    for any hash function; Look has what a block holds under a key, Moved the
--                    loops of its resize, Iter its iterators.
-- zvm, the register machine.
--   Zvm              Lock: `simple_lock` and `spin_lock` of zvm/zvm_lock.cpp; Lock/Access has
--                    any number of stacks that take and leave one, an access at a time. Heap: the objects of
--                    zvm/zvm_obj.h, their pool and the counts of their entries. Word: s64 as
--                    words below 2 ^ 64, with no result where the language leaves one undefined.
--                    Machine: `op_process` of zvm/zvm_op_proc.h over the stack, its operand stack
--                    and its current frame; Machine/Closed is the induction over the operations
--                    that Machine/Bounds and Process/Ends share. Process: `function::process` of
--                    zvm/zvm_function.cpp, with fuel for the rounds of its loop.
-- Common has lists over native numbers and the names that all share; Errno the codes of
-- ep/ep_define.h; Tests runs the definitions and applies the theorems to concrete inputs.
--
-- Bounds. Unsigned counters of 32 and 64 bits wrap round where the code's do. The fields of
-- `loop_buf` are taken below 2 ^ 30, so that no sum of two leaves `int32`, and lengths are not
-- negative. The loops of `task_queue` and `thread_pool` recur on what they walk over; reading a
-- log has a round for each byte of the file, and a record takes more than one byte. `send_` has
-- fuel for calls that are interrupted, `process_op` for the operations that wait, and
-- `handle_read` for what is received and the packs in it.
--
-- The classes of zvm, the functions that `AINIT` runs and the handlers of its exceptions are
-- arguments, an address of 0 is NULL,
-- and what `new` returns is the next address; an entry with no reference is not deleted.
--
-- What the code leaves to others is an argument: what `pthread_create`, `fopen` and `fwrite`
-- return, what `send`, `recv` and `epoll_ctl` do, the handlers of timers and packs,
-- `sizeof(op)`, what a child's `process` returns, and which callbacks are still in the pool's
-- queue when a job is stopped. A mutex is the atomicity of the step that holds it, and is taken
-- as one that its holder can take again, as on Windows.
--
-- A `fifo` is taken with a `long` of 32 bits, so that its exchange covers both halves, and with an
-- allocator that gives no address twice; what a freed node holds is any contents. A `hash_map` is
-- taken with nodes as the entries of its chains, and its cache as their number.
--
-- Not modelled: `job::clear`, `eq_imp::dump` and which log files are
-- read at a start, the loop of a `net_thread`, the
-- rest of the sockets of efnfw, the log files of elog, the other containers and the
-- allocator of be, MD5 and the block ciphers, which are copies of other libraries, the classes and
-- collector of zvm, the copy of efnfw in common, and the servers, which are glue.
pub mod Common
pub mod Errno
pub mod TaskQueue
pub mod Worker
pub mod Pool
pub mod Job
pub mod Net
pub mod Zvm
pub mod Base64
pub mod Be
pub mod OpLog
pub mod Parallel
pub mod EventQueue
pub mod LoopBuf
pub mod Tests
