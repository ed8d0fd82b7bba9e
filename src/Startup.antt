-- ===== src/Startup.antt =====
-- src/main.c: the start of the program, its run and its cleanup.
pub mod Threads
pub mod Wiring
pub mod Checker
pub mod Joined
pub mod Cleanup
pub mod Fresh
pub mod Ready
pub mod Routes
pub mod Tests
