-- ===== src/Pkg.antt =====
-- pkg: the packages that the components share.
pub mod ShardedMap
pub mod Buffers
