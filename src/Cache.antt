-- ===== src/Cache.antt =====
-- internal/platform/redisx/versioned.go: the cache of one value for each key, with a version counter.
pub mod Versioned
pub mod Readers
pub mod Fresh
mod Tests
