-- ===== src/Nsm.antt =====
-- pkg/nsm: the names of the interfaces.
pub mod Cache
pub mod Tests
