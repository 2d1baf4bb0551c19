-- ===== src/Cache.antt =====
-- The cache with a time to live: holmes/utils/cache.py.
pub mod Ttl
pub mod Expired
pub mod Refines
mod Tests
