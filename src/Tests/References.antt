-- ===== src/Tests/References.antt =====
-- The reference solutions at concrete inputs.
mod ThreadPool
mod SpscQueue
mod Semver
mod Duration
mod LruCache
