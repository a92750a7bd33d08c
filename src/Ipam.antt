-- ===== src/Ipam.antt =====
-- pkg/ipam: the arithmetic on networks, the allocation, the store in memory, and the tree of
-- trench, conduits, nodes and their prefixes.
pub mod Ip
pub mod Prefix
pub mod Storage
pub mod Allocate
pub mod Memory
pub mod Node
pub mod Conduit
pub mod Trench
pub mod Watcher
pub mod Siblings
pub mod Tests
