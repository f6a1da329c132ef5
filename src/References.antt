-- ===== src/References.antt =====
-- The reference solutions of the evaluation's tasks, in tasks/*/reference.hpp.
pub mod ThreadPool
pub mod SpscQueue
pub mod Semver
pub mod Duration
pub mod LruCache
