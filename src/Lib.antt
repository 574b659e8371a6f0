-- ===== src/Lib.antt =====
-- UKFS-FUSE: FUSE file systems behind a file system driver of Unikraft.
--
-- A system call reaches the driver, libs/ukfusefs/ukfs-fuse.c. Each of its operations puts a request
-- on a queue (libs/ukfusefs/fuse_queue.c) and waits on the semaphore of that request. A daemon
-- thread (libs/ukfusefs/fuse_daemon.c) takes the request, writes it as a FUSE message into its
-- buffer, and calls the bundled libfuse (libs/libfuse/lib/fuse_lowlevel.c), which decodes the
-- message and calls a handler of the backend, such as apps/fuse-correctness-test/hello_ll.c. The
-- reply functions of that libfuse are rewritten: they fill in the request and raise its semaphore.
--
-- The files and the code that they model:
--   Request        libs/ukfusefs/include/uk/fuse.h: requests, their arguments, the replies
--   Queue          libs/ukfusefs/fuse_queue.c: init, push and pop as functions of the queue;
--                  Queue/Threads has the same code run by many threads, a shared access at a time
--   Daemon         libs/ukfusefs/fuse_daemon.c: Daemon/Message the fill functions, Daemon the table
--                  and the header, Daemon/Loop a round of the thread and its start
--   Libfuse        libs/libfuse/lib/fuse_lowlevel.c: the way of a message to a handler;
--                  Libfuse/Reply the reply functions
--   Hello          apps/fuse-correctness-test/hello_ll.c: the handlers, under their names
--   Perf           apps/fuse-perf-test/hello_ll.c: the backend with a second file, its functions
--                  named perf_*;
--                  Perf/Linux and Perf/Listing have the handlers of
--                  apps/fuse-perf-test/linux_hello_ll.c
--   Launch         main of the backends, up to fuse_session_loop
--   Driver         libs/ukfusefs/ukfs-fuse.c: Driver/File, Read, Attr, Dir and Mount have the
--                  operations, under their names
--   System         the driver over the queue, the daemon, libfuse and a backend; System/Delivery
--                  follows a request all the way, System/Answer, Reading, Listing and Attributes
--                  the driver's operations, System/Sound the blocks,
--                  System/Entry a directory entry from libfuse to the driver,
--                  System/Kinds and Casts the structures that the driver casts answers to,
--                  System/Uncrashed the operations that do not crash;
--                  System/Callers has any number of callers that wait for one daemon
--   Clients        apps/fuse-correctness-test/main.c: Clients/Checks, Attrs, Read, Listing and Seek
--                  have its functions under their names, Clients/Main its main (suite_main), over a
--                  record of system calls; Clients/Counted what the suite counts, Clients/Tree a
--                  reference system, Clients/Simulation and Passes the suite on what refines it,
--                  Clients/Balance what it opens and closes; Clients/Smoke has main of
--                  apps/fuse-test/main.c (smoke_main)
--   Bench          apps/fuse-perf-test/main.c: the statistics; Bench/Loops and Throughput the
--                  benchmarks, under their names; Bench/Main its main (bench_main), and main of
--                  apps/fuse-perf-test/linux_baseline.c (linux_main) with the throughput
--                  (linux_bench_throughput) that differs there
--   Common, Errno  the shared vocabulary
--   Examples       runs of the modelled code
--
-- An operation is a function into `Exec`: it ends with a result, blocks its thread for ever, or
-- crashes. The heap, `Mem`, is the number of allocated blocks and the list of the refusals that
-- malloc is going to make, so a theorem for every heap holds for every behaviour of the allocator.
-- A request keeps the value of its semaphore. The driver's operations are over a `Channel`, what
-- happens between the push of a request and the moment its owner looks again. Byte strings are
-- lists of numbers, and machine integers are natural numbers with their reduction written out.
-- A loop of the library code is over a list, and the daemon's endless one is a round. The loops of
-- the test programs, over a directory, over a file, and until a session is registered, run on fuel,
-- and `blocked` is where it is used up: one round more than the directory has entries, than 50 MB
-- has bytes, or than the backend needs yields, is enough.
--
-- Given as arguments: whether Unikraft has a default allocator and makes a thread, the mask
-- UK_STATX_*, the macro UKFS_DIRENT_RECLEN, qsort, the time-stamp counter, and the system calls and
-- thread functions that the test programs make. The VFS between these calls and the driver is
-- Unikraft's. Not modelled: the parts of libfuse that the daemon does not reach, whose place in
-- `call_handler` a fault holds, its list of requests for interrupts, its debug output, the timeout
-- that the reply to a getattr ignores, Unikraft's file layer, and what programs print.
pub mod Common
pub mod Errno
pub mod Request
pub mod Queue
pub mod Daemon
pub mod Libfuse
pub mod Hello
pub mod Driver
pub mod System
pub mod Perf
pub mod Launch
pub mod Clients
pub mod Bench
pub mod Examples
