-- ===== src/Lib.antt =====
-- Verification of the C and C++ programs of UCB-RTES, exercises on real-time embedded systems with
-- POSIX threads on Linux: threads, shared variables, semaphores, and sequencers that release periodic
-- services.
--
-- The programs are separate executables. Most exist twice, in C and in C++ over the small library
-- include/xpto; each program has its model in a file named for it:
-- - SimpleThread: 01-simplethread/main.c. `count_locally` is sum_loop and count_locally, the creation
--   loop of `main` is create_loop and main. StdThread has the sums of main.cpp and its `main`.
-- - IncDec: 02-incdecthread/pthread.c. `incThread` and `decThread` are inc_thread and dec_thread, one
--   step for each access to a shared variable; the interleavings are Step and Reach. Unjoined has
--   `main` of main.cpp, which prints while the threads run.
-- - TwoProcs: 03-twoprocs/main.c. The parent and the child after `fork` are parent_step and
--   child_step, one step for each call; a `sem_wait` that fails is parent_fault and child_fault.
-- - ForkedChild: 03-twoprocs/main.cpp, where a `sem_wait` that fails throws: parent_throw and
--   child_throw. NoChild has a `fork` that fails.
-- - Affinity: 04-simplethread-affinity/main.c. `counterThread` is counter_thread, `set_scheduler`
--   fifo_sched_attr, the loop of `starterThread` starter_loop. Program has the calls of the whole
--   program, with what fails; XptoThread main.cpp.
-- - Assignment1: 05-assignment1/pthread.cpp. `exec` is exec, over a model of `fgets`, `main` main.
-- - RtThread: 06-rt-simplethread/pthread.c. Fib has `FIB_TEST`, DeltaT `delta_t`, Counter the compute
--   section of `counterThread`, `print_scheduler` and `main`, Report the rest of `counterThread`.
--   XptoThread has pthread.cpp, its Program `main`.
-- - Lab1: 07-hardcoded-sequencer/lab1.c. Lab1 has the `Sequencer` as the list of its sleeps, posts and
--   flags, Fib the macro `FIB_TEST`, Schedule the times of the releases, Services `fib10` and `fib20`,
--   Preemption a call of FIB_TEST that fib10 interrupts at any of its assignments and tests, Setup
--   `main`. Feasibility runs the work of the two services by priority on one core under the plan of
--   the sequencer.
-- - HardcodedSequencer: 07-hardcoded-sequencer/main.cpp, the three threads of `main`; Agreement
--   compares them with lab1.c, Services has t10 and t20 beside the sequencer, Construction `main`
--   where a thread cannot be constructed, Rerun a second run behind a first one, Calibrated the work
--   of `work_for` in the schedule.
-- - SeqGen, SeqGen2, SeqGenEx0: 08-sequencer-generic/sam-sequencer/seqgen.c, seqgen2.c and
--   seqgenex0.c. Each has the `Sequencer` in the file itself, its loop against a plain list of cycles
--   in Rates, `Service_1` and so on in Services, and `main` in Setup; Delay has the inner delay loops,
--   and the wake-up time of seqgenex0.c; SeqGenEx0.Drift its drift control.
-- - GenericSequencer: 08-sequencer-generic/generic-sequencer.cpp. The `do ... while` of `main` is
--   sequencer_loop, over a priority queue that is the interface Queue.PriorityQueue
--   (`std::priority_queue`; OrderedList shows that it can be filled). Reference has the same schedule
--   with no queue, Refinement the agreement of the two, Schedule, Rounds and Times the deadlines and
--   the releases, Lateness the same with late sleeps, Services the threads.
-- - ClockTimes: 08-sequencer-generic/sam-sequencer/clock_times.c. `displayClock` is display_clock;
--   Loops has `main`, also that of 08-sequencer-generic/clock_times.c.
-- - ClockOverhead: 08-sequencer-generic/clock-overhead.cpp.
-- - Readings: `getTimeMsec` and `realtime` of the sequencers and of lab1.c, and the calibration of
--   lab1.c, over an abstract `double`.
-- - Xpto: include/xpto. OrLose has `or_lose`; Thread the constructor of `xpto::thread` as a list of
--   calls that the system answers, Lifecycle how it ends, Effect the attributes that the thread gets,
--   Caller what it does to the process that makes it; Resource `c_resource` as operations on objects
--   and handles; Fib `FIB_TEST` and `work_for` of ucbrtes.hpp; Scheduler its `install_rt_scheduler`;
--   Syslog what `syslogger` logs; Semaphore `sem`, over the calls of the C library as a parameter,
--   ThreadObjects thread objects in a scope that catches nothing.
--
-- They share Threads, the interleaving of one sequencer with numbered services: a program gives the
-- list of actions of its sequencer and the table of its services. `sem_post`, `sem_wait` and the abort
-- flags act on a Fleet; Threads.Step lets any thread go on, or, under SCHED_FIFO with all threads on
-- one core, services only while the sequencer sleeps or has ended. Count (no release is lost), Exit,
-- Hang, Fifo, AbortFirst, Ahead and Stale are about any program of this kind. Base has the shared
-- types and lemmas, with signed integers (Int), words of 32 and 64 bits (Word, Long), strings (Bytes)
-- and the results of C code (Run); Posix the calls of POSIX and Linux; Fibonacci and Triangle the
-- numbers that the loops compute.
--
-- Results of system calls come from an environment that is an argument: what each sleep returns, which
-- calls fail, the range of priorities, the policy in force, the value of `abortTest`, which of the C
-- programs only lab1.c ever writes. `sem_wait` in the services is taken to return only with a token. A
-- semaphore has no upper bound. The sequencer programs find their semaphores new, but for
-- HardcodedSequencer.Rerun: those of the C++ programs have names that nothing unlinks.
--
-- Loops run on fuel, and a run whose fuel is used up gives `running`. Every theorem on a loop gives
-- the fuel that is enough, one unit for each test of the loop, and states that the loop ends. Counters
-- wrap at their width, and the theorems say up to where they do not. In GenericSequencer `int64_t`
-- overflow is undefined behaviour and counted as an exit; the theorems are for frequencies up to 3
-- GHz. `int` arithmetic goes through Word.to_int.
--
-- Not modelled: the log (printf, syslog, fmt), clock readings but for Readings, and floating-point
-- arithmetic beyond it (the drift control of seqgenex0.c is taken up to a rounding error, a
-- parameter), signals, the calls of `pthread_create` and `pthread_join` beyond their order and
-- attributes, and priorities among services on one core. Sequentially consistent memory is assumed. An
-- exception that nothing catches ends the process by `std::terminate` with no destructor run, as GCC
-- has it. Of the C++ language, moves of function objects, templates and allocation are left out. The
-- kernel module under raspbian-ccr has no model, and neither has `AUTO` of auto.hpp but as the call at
-- the end of the scopes where it stands.
mod Base
mod Posix
pub mod Threads
pub mod Xpto
pub mod SimpleThread
pub mod SeqGen
pub mod SeqGen2
pub mod SeqGenEx0
pub mod ForkedChild
pub mod GenericSequencer
pub mod HardcodedSequencer
pub mod IncDec
pub mod TwoProcs
mod Fibonacci
pub mod Triangle
pub mod Lab1
pub mod Affinity
pub mod Assignment1
pub mod Readings
pub mod RtThread
pub mod ClockOverhead
pub mod ClockTimes
