-- ===== src/Lib.antt =====
-- LCache, a distributed cache in Go: what its stores and their parts do, with proofs.
--
-- Parts. A `Store` (store/store.go) keeps values by string keys; store/lru.go implements it by one
-- list in order of use with a limit in bytes, store/lru2.go by buckets of two levels of fixed
-- capacity. cache.go wraps a store, group.go loads what the cache misses through singleflight and
-- from the peers that peers.go chooses by the ring of consistenthash; server.go answers the peers,
-- and registry/register.go tells them of a node.
--
-- Files. `Value` has keys, values and options (byteview.go, store/store.go). `Lru` is
-- store/lru.go: the record `Lru` is `lruCache`, its functions are the methods, and its children
-- prove: `Elements` about the list and the heap of elements, `Invariant`, `Writes` and `Changes`
-- that the methods keep the cache well-formed, `System` about interleavings, `Expiry` and `Evict`
-- about eviction, `Holds`, `Coherence` and `Reads` about what is read, `Callbacks` about
-- `onEvicted`, `Limits` about the limit in bytes, `Late` about a deletion that comes too late.
-- `Level` is the struct `cache` of store/lru2.go: the array of links, the array of nodes and the
-- map, with an index out of range as a panic. `Chain` and `Ring` are about the doubly linked ring,
-- `Moves` about `adjust`, `Order` and `Rep` say when a level stands for a list of nodes, `Spec`
-- has the operations on lists, and `Refine`, `Marks`, `Put` and `Walk` prove that the methods do
-- these, over the steps in `Kept`, `Fresh` and `Renew`. `Found` is about the value that a level
-- has for a key. `Lru2` is `lru2Store` itself: buckets of two levels, with `Safe`, `Gets`, `Keys`,
-- `Sweeps` and `Runs` about calls that do not panic and what they leave, by the relations of
-- `Contents`; `Origins` and `Reads` are about what a client reads. `Store` is the interface of
-- store/store.go by these two, with `Total` about both. `Cache` is cache.go, with `Methods` and
-- `Safe` about calls in sequence, `Closing` about `Close`, and `Counting` about hits and misses.
-- `Group` is group.go, with `Methods` and `Safe` about calls in sequence, `Lookups` about where
-- `Get` finds a value, and `Loads` and `Tallies` about the statistics. `Registry` is the registry
-- of group.go with the handlers of server.go, with `Known` about the critical sections of `Close`
-- and `Open` about closing and destroying groups, `Received` about values and `Rounds` about
-- deletions that another node has sent. `Singleflight` is singleflight/singleflight.go as steps of
-- goroutines, with `Sound` and `Kept` about all states that are reached, `Results` about what `Do`
-- returns, `Progress` about waiting and `Twice` about calls that come at once. `Registration` is
-- registry/register.go, with `Keys` about what is put into etcd. `Server` is the rest of
-- server.go: the options, `NewServer`, `Start` and `Stop`, with `Stopping` about the channel that
-- `Stop` closes. `Client` is the requests of client.go over the handlers, with `Remote` about a
-- value that is sent to another node. `Peers` is peers.go with `NewClient` of client.go, with
-- `Foreign` about the peers that are picked, `Stale` about nodes that are gone and `Own` about a
-- node's own registration. `ConsistentHash` is consistenthash/con_hash.go, with `Sorting` about
-- `sort.Ints`, `Nearest` about `Get`, `Loop`, `Removal`, `Growth`, `First`, `Owners` and `Runs`
-- about the ring under `Remove` and `Add`, and `Balance` about rebalancing. `Common` has the
-- shared helpers.
--
-- Conventions. Go strings and byte slices are lists of bytes. An int64 is its bit pattern, a
-- number below 2 ^ 64, and arithmetic on it wraps. A reading of the clock is an argument, in
-- nanoseconds. A Go map is an association list, and the order in which Go ranges over one is a
-- parameter. A method under its lock is one function from state to state; where the code gives the
-- lock up, a step relation has what may come in between. `Lock` of a lock that the goroutine holds
-- itself never returns. What etcd, gRPC and the network answer to a call is a parameter of it.
--
-- Fuel. The second loop of `evict` takes the length of the list as fuel; every round removes an
-- element. `walk` takes one more than the number of nodes: every round goes on to another node,
-- and the last meets the end. The binary search of the ring takes the number of hashes, and the
-- digits of a replica's index take 20, enough for an int. Floats are a record of operations, which
-- the theorems about rebalancing do not look into.
--
-- Not modelled: what becomes of the list of store/lru.go once `MoveToBack` has moved an element
-- that `Init` dropped (`System` says when that happens, and nothing of what follows), logging,
-- etcd, gRPC, generated code; what `Clear` of the two-level store meets when other calls come
-- between its critical sections, a `Get` of a group that waits in singleflight for another one,
-- and what a server does in `Serve`; `GracefulStop` is modelled by whether the calls that are
-- under way end.
pub mod Common
pub mod Value
pub mod Lru
pub mod Level
pub mod Lru2
pub mod ConsistentHash
pub mod Store
pub mod Cache
pub mod Group
pub mod Registry
pub mod Server
pub mod Singleflight
pub mod Client
pub mod Registration
pub mod Peers
