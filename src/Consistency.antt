-- ===== src/Consistency.antt =====
-- dlstorage/consistency: how the answers of the replicas to a read become one value.
pub mod Lww
pub mod Fhw
