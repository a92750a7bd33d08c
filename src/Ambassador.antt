-- ===== src/Ambassador.antt =====
-- The ambassador (cmd/tapa over pkg/ambassador): the streams that a target opens.
pub mod Messages
pub mod Registry
pub mod Stream
pub mod Manager
pub mod Tests
