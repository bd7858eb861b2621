-- ===== src/Lib.antt =====
-- A verification library for the C programs of this repository: character drivers and a client
-- (asm_11), modules (asm_2), drivers that read a device tree (asm_12), programs with threads or processes (asm_6, asm_7,
-- asm_8), programs with signals or messages (asm_5), and work that is deferred or multiplexed (asm_4).
--
-- Parts and files
--   Prelude             names of the libraries, Boolean tests, lists, integers, arrays with bounds, sums
--   Kernel              what the drivers call: user memory (UserMemory), the registration calls (Calls)
--   CharDriver          asm_11/ex_2/ex_2.c: dev_read, dev_write; its abstract view (Spec) and how
--                       the two are related (Refine); calls at the same time (Concurrent)
--   IoctlDriver         asm_11/ex_3/ex_3.c: etx_read, etx_write, etx_ioctl; asm_11/ex_3/user_test.c: main
--   StubDriver          asm_11/ex_1/ex_1.c: dev_open, dev_release, dev_read, dev_write
--   Registration        etx_driver_init and etx_driver_exit of asm_11/ex_1/ex_1.c (Stub),
--                       asm_11/ex_2/ex_2.c (Char) and asm_11/ex_3/ex_3.c (Ioctl)
--   MultiDriver         asm_11/ex_2_multi2/ex_2_multi2.c: dev_open, dev_release, dev_read, dev_write;
--                       multi_driver_init and multi_driver_exit (Setup); any sequence of calls through
--                       files that are open (Files); calls at the same time (Concurrent);
--                       asm_11/ex_2_multi2/ex_2_user.c on that driver (Client)
--   PlatformDriver      asm_11/ex_2_platform/ex_2_driver.c: the same operations, probe and remove (Probe);
--                       ex_2_device.c beside it (Device), and both modules on the platform bus (Bus)
--   Modules             asm_2/asm_2/module_a.c and module_b.c
--   Signals.Dispatch    "asm_5 /Ex_5/ex_5.c" (the directory's name ends in a space):
--                       functionCallHandler, handle_sigchld, the actions of a child
--   Signals.Family      main of that program: the parent and its three children
--   Signals.Masks       "asm_5 /Ex_2/ex_2.c"
--   Signals.Pending     "asm_5 /Ex_3/ex_3.c"
--   Signals.TwoSends    "asm_5 /Ex_4/ex_4.c"
--   Signals.OneSend     "asm_5 /Ex_4/ex_4_expand.c"
--   Signals.Handlers    asm_4/ex_1/ex_1.c, "asm_5 /Ex_1/ex_1.c" and "asm_5 /Ex_1/ex_1_expand.c"
--   Signals.Interrupted asm_6/ex_3/ex_3.c
--   Deferred.Tasklet    asm_4/tasklet/tasklet.c
--   Deferred.Work       asm_4/workqueue/workqueue.c
--   DeviceTree          asm_12/ex_1/Platfrom_driver/driver.c (Sensor) and
--                       asm_12/ex_2/Platform_driver/driver_2.c (Node)
--   Multiplex.Echo      asm_4/ex_3_socketpair/ex_3.c
--   Multiplex.Select    asm_4/ex_2/ex_2.c
--   Threads.Locks       mutexes, spinlocks and semaphores as interfaces
--   Threads.Counter     asm_7/ex_2/mutex.c, asm_8/ex_1/ex_1.c, asm_8/ex_4/ex_4.c
--   Threads.LostUpdate  asm_7/ex_2/no_mutex.c
--   Threads.Race        asm_7/ex_1/ex_1.c
--   Threads.Deadlock    asm_7/demo_deadlock.c
--   Threads.Buffer      asm_7/ex_3/ex_3.c
--   Threads.Turns       asm_7/pthread_cond.c
--   Threads.Gate        asm_8/ex_2/ex_2.c
--   Threads.Printers    asm_8/printer.c
--   Processes.Segment   asm_8/ex_3/ex_3_writer.c and asm_8/ex_3/ex_3_reader.c
--   Processes.Queue     msg_send.c and msg_recv.c of "asm_5 /message_queue"
--   Processes.Tree      asm_6/ex_4/ex_4.c
--   Processes.Fork      asm_6/ex_1/ex_1.c and asm_6/ex_2/ex_2.c
-- A module that tests or applies theorems at inputs is called Tests.
--
-- How the code is read
--   A driver's static variables are a record; an operation takes it, user memory and its arguments, and
--   returns what it changes. An access outside an array is `fault`, all other results are `done`; an
--   error code is a negative integer as in the code. copy_from_user and copy_to_user are parameters
--   with their documented laws (Kernel.UserMemory). A `size_t` difference is written with its
--   wrap-around. An offset is a natural number: the kernel passes none that is negative.
--   The registration calls are a list of calls with their answers, which are a parameter; `holds` and
--   `releases_held` follow one resource through such a list.
--   A program with threads is a relation of steps: a step is one call that locks, unlocks, waits or
--   signals, one evaluation of a loop's condition, or one access to shared variables; where a mutex
--   protects several statements they are one step. The interleavings are the sequences of steps.
--   Each lock is an interface with a state, its owner, and the laws of locking and unlocking; a concrete
--   instance shows that the laws can hold. pthread_cond_wait may also return with no signal.
--   Numbers of threads and rounds are parameters where the code's numbers are not needed; loops that
--   the code bounds by a constant are bounded by it here. No definition runs on fuel.
--   `int` counters are natural numbers: the programs count far below 2 ^ 31.
--
--   A program with processes, a module whose work the kernel does later, and a loop over epoll are
--   relations of steps too: a step is one call, and what the kernel does comes as further steps. Between
--   the steps of one process those of the others may come, and a signal or a key at any time.
--
--   Loading and unloading go by what the kernel documents of modules and of the platform bus.
--
-- Not modelled: messages to the log where nothing depends on them, sleeping times, file permissions of
-- the device nodes, calls at the same time on asm_11/ex_3/ex_3.c, the end of the input in
-- asm_11/ex_2_multi2/ex_2_user.c, where scanf fails and main repeats the last option. asm_2/asm_1/log_level_test.c only
-- writes constant messages to the log. Files named .mod.c are generated.
pub mod Prelude
pub mod Kernel
pub mod Modules
pub mod Registration
pub mod CharDriver
pub mod Deferred
pub mod DeviceTree
pub mod IoctlDriver
pub mod MultiDriver
pub mod Multiplex
pub mod PlatformDriver
pub mod Processes
pub mod Signals
pub mod StubDriver
pub mod Threads
