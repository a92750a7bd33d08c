-- ===== src/LoadBalancer.antt =====
-- pkg/loadbalancer: the targets and flows of a stream, over the kernel, nfqlb and the services
-- that the code calls.
pub mod Env
pub mod Target
pub mod Flow
pub mod Stream
pub mod Availability
pub mod Tests
