-- ===== src/Cache.antt =====
-- src/memcache.cc, the client of the cache.
pub mod Codec
pub mod Client
