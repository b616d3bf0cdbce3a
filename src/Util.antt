-- ===== src/Util.antt =====
-- util/slice.go and util/rediscluster.go.
pub mod Slice
pub mod Status
