-- ===== src/RtThread.antt =====
-- 06-rt-simplethread/pthread.c: four threads that compute sums and Fibonacci numbers under
-- SCHED_FIFO, and measure how long they take.
pub mod Fib
pub mod DeltaT
pub mod Counter
pub mod Report
pub mod XptoThread
mod Tests
