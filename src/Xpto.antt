-- ===== src/Xpto.antt =====
-- include/xpto: the library that the C++ programs share. The language's machinery (templates, moves of
-- function objects, heap allocation) is not modelled.
pub mod OrLose
pub mod Thread
pub mod Fib
pub mod Resource
pub mod Syslog
pub mod Semaphore
pub mod Scheduler
pub mod ThreadObjects
mod Tests
