-- ===== src/Eval.antt =====
-- The evaluation harness in src/eval: code out of replies, attempts with repairs, reports.
pub mod Extract
pub mod Outcome
pub mod Kernel
pub mod Process
pub mod Runner
pub mod Rounds
pub mod Workers
pub mod Tasks
pub mod Report
