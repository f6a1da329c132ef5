-- ===== src/Tests.antt =====
-- Runs of the model at concrete inputs, and the theorems applied there.
mod Sse
mod Types
mod Wire
mod Client
mod Eval
mod Chat
mod Cli
mod Tools
mod Process
mod Transport
mod References
mod Log
mod Program
