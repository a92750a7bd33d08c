-- ===== src/Lib.antt =====
-- Meridio: load balancing of external traffic over the targets of Kubernetes pods. This library
-- models the parts of it that decide: which addresses the IPAM gives out, which targets and flows
-- a stream balances, which registered targets a watcher is told of and for how long they stay, which
-- identifier a target takes in a stream, which streams a pod keeps open, which names the interfaces
-- get, when a pod is healthy, and which ports a flow may have.
--
-- IPAM (cmd/ipam over pkg/ipam). A trench has a range, its conduits have ranges in it, the nodes of
-- a conduit in that, and targets, proxies and load balancers addresses in the node's.
-- - Net: what is used of Go's package net (ParseCIDR, IPNet.Contains). An address is its list of
--   bytes, a text "address/length" the record Cidr. IPv6 addresses that map IPv4 are left out.
-- - Ipam/Ip: pkg/ipam/prefix/ip.go (IsCIDR, GetFamily, OverlappingPrefixes, NextPrefix, LastIP,
--   CollideWith). A byte keeps its wrap-around, `% 256`.
-- - Ipam/Prefix: pkg/ipam/prefix/prefix.go. A prefix holds its parents.
-- - Ipam/Storage: the interface Storage of pkg/ipam/types/types.go. Every call may fail.
-- - Ipam/Allocate: pkg/ipam/prefix/allocate.go, over any Storage. The inner loop (search) has as
--   much fuel as the address space of the family has addresses: Allocate/Searching shows that this
--   is enough below a parent of 8 bits at least whose first byte is not 0, since each jump goes to a
--   later network. The outer loop (allocate_loop) repeats on conflicts with other writers of the
--   store, which nothing bounds: its fuel is an argument.
-- - Ipam/Memory: pkg/ipam/storage/memory/memory.go. Each method holds the mutex and is one step.
--   The recursive delete has the depth of the longest path as fuel.
-- - Ipam/Node, Ipam/Conduit, Ipam/Trench: pkg/ipam/{node,conduit,trench}, over any Storage.
-- - Ipam/Watcher: SetConduits of pkg/ipam/trench/watcher.go.
-- - Ipam/Siblings: trench, conduits and nodes together over the store in memory.
--
-- NSP (api/nsp/v1 and pkg/nsp). Messages, and which of them a watcher is told of.
-- - Nsp: api/nsp/v1/utils.go (Equals) and filter.go; a pointer is an Option.
-- - Nsp/Slices: compareSlice and DeepEquals; Nsp/PortNats: api/nsp/v1/diff.go.
-- - Nsp/Registry: pkg/nsp/registry/common/{filter,watcher}.go; Nsp/Memory:
--   pkg/nsp/registry/memory/memory.go, the targets and their watchers.
-- - Nsp/Sqlite: the rows of pkg/nsp/registry/sqlite (serialize.go, model.go) and the identifiers of
--   targets in them.
-- - Nsp/KeepAlive: pkg/nsp/registry/keepalive/keepalive.go, over any registry whose calls may fail.
--   The context of an entry is a number, the goroutine that waits for it a timer, which fires at any
--   time. Nsp/KeepAlive/History: what it hands to its registry, as a function of the calls before.
--   Nsp/KeepAlive/Entries: a map of targets, the registry that the targets of the ambassador call.
--
-- Load balancer (cmd/stateless-lb over pkg/loadbalancer). A stream receives targets and flows from
-- the NSP, and keeps those that it could set up in the kernel and in nfqlb.
-- - LoadBalancer/Env: what it calls, the state of which is unknown: routes, nfqlb, metrics,
--   neighbors, forwarding availability, health. Every call that can fail returns whether it did.
-- - LoadBalancer/Target: pkg/loadbalancer/stream/target.go; LoadBalancer/Flow:
--   pkg/loadbalancer/flow/flow.go.
-- - LoadBalancer/Stream: AddTarget, RemoveTarget, verifyTargets, retryPendingTargets, the check of
--   processPendingTargets and Delete of pkg/loadbalancer/stream/loadbalancer.go;
--   LoadBalancer/Stream/Watch: setTargets and setFlows. A map is an association list, and the
--   theorems hold for every order of its entries.
-- - LoadBalancer/Availability: pkg/loadbalancer/stream/availability.go. Events interleave the
--   service's operations with the steps of its watchers.
--
-- NSM (pkg/nsm).
-- - Nsm/Cache: pkg/nsm/interfacename/cache.go, the names of the interfaces, over any generator. A
--   delayed release is a task, and runs as a step of its own.
--
-- Ambassador (api/ambassador/v1 and pkg/ambassador). The target's side: a pod opens streams.
-- - Ambassador/Messages: api/ambassador/v1 (equals.go, name.go, convert.go, filter.go).
-- - Ambassador/Stream: pkg/ambassador/tap/stream/stream.go. Open and Close are trees of calls of the
--   target registry, with a branch for each answer. The loop that looks for a free identifier ends
--   with its context: the argument rounds says after how many rounds that is. Random numbers are
--   an argument too.
-- - Ambassador/Stream/Exchange: several targets that call one registry, whose calls and answers may
--   be lost, in every interleaving. The entry of a target goes only while its stream is closed and no
--   call of it runs, and its addresses do not change.
-- - Ambassador/Registry: pkg/ambassador/tap/stream/registry, the status of each stream and who
--   watches it; Ambassador/Registry/Refines: the map that it stands for.
-- - Ambassador/Manager: pkg/ambassador/tap/conduit/manager.go, which opens the streams that are in the
--   configuration. The goroutines of Open are a list, and report and end at any time.
--
-- Health (pkg/health). Health: RegisterServices and SetServingStatus of checker.go, over any health
-- server of gRPC that has not been shut down.
--
-- Operator (api/v1). Webhook: the check of a flow's ports in flow_webhook.go and types.go. Whether an
-- append finds room in the array of a slice is a parameter, room.
--
-- Not modelled: the storage of the IPAM and the calls of the NSP's registry in SQLite, which go
-- through gorm; the servers and the loops that receive from streams of gRPC; the frontend (BIRD),
-- the proxy and the other NSM chain elements; the ambassador's conduits and trenches themselves; the
-- operator's controllers, and the API and the other checks of its resources.
pub mod Base
pub mod Net
pub mod Ipam
pub mod Nsp
pub mod LoadBalancer
pub mod Nsm
pub mod Ambassador
pub mod Health
pub mod Webhook
