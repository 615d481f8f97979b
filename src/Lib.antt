-- ===== src/Lib.antt =====
-- Lock-free durable sets: sets of integers in linked lists, hash tables and skip lists whose content
-- survives a crash. Persistent memory (NVRAM) keeps what has been flushed to it, the caches are lost.
--
-- The link-free sets (LinkFree/) keep whole nodes in NVRAM, with two validity bits and a mark in the
-- pointer to the next node; recovery links the nodes anew that are valid and unmarked. The SOFT sets
-- (SOFT/) keep a list of volatile nodes, each with a persistent node of its own; recovery rebuilds the
-- list from the persistent nodes.
--
-- Common: the shared names; Common.Int: the numbers of an `int`, with the remainder and the division of C.
-- Common.Prog: programs as trees of atomic operations, and their runs. An operation of a set is such a
-- program, so that the order of its accesses to memory is in the model; a run by one thread performs
-- them on a memory. A run ends with a result, in a fault (an access through a null or marked pointer),
-- in a failed `assert` or a division by zero, or with its fuel used up.
--
-- LinkFree.Utilities: LinkFree/utilities.h. The metadata byte and the mark, on numbers.
-- LinkFree.Memory: the nodes as the caches hold them and as NVRAM holds them; each flush copies one
--   node. The objects that `ssmem_alloc` will return are part of the memory, as an argument of each
--   theorem; those given to `ssmem_free` are recorded.
-- LinkFree.List, Construct, Recovery: LinkFree/LinkFreeList.h (find, trim, insert, remove, contains, the
--   constructor, quickInsert, recover). A key is an `intptr_t` by its distance from INTPTR_MIN.
-- LinkFree.Shape, Invariant: the chain of the nodes from head to tail, and what NVRAM holds between calls.
-- LinkFree.Find, Lookup, Cells, Commands, Help: the search and the lemmas that the operations share.
-- LinkFree.Insert, Remove, Contains, Rebuild: the operations, and recovery. Contains.Beyond, here and for SOFT:
--   keys from INT_MAX on; Rebuild.Search: the search of quickInsert beside that of find, for SOFT as well.
-- SetSpec: what a set promises, as an interface: calls act as on a mathematical set of keys.
-- LinkFree.History, Soft.History: the two lists fill it; State: a list that is ready for calls; Crash: what
--   a crash between two calls and recovery leave; Start: the constructor.
-- LinkFree.Upkeep: what all nodes keep, for recovery.
-- LinkFree.Transitions: the changes of links by the operations of LinkFree/LinkFreeList.h.
-- LinkFree.HashTable: LinkFree/LinkFreeHashTable.h. The number of buckets is an argument. Buckets: their choice,
--   by both hash tables.
-- Soft.Utilities: SOFT/utilities.h. Soft.Memory: SOFT/PNode.h, SOFT/VolatileNode.h.
-- Soft.PersistentNode, with Lifecycle: the methods of SOFT/PNode.h and what a crash leaves at each moment.
-- Soft.List, Recovery: SOFT/SOFTList.h. Soft.HashTable: SOFT/SOFTHashTable.h.
-- Soft.Shape, Invariant, States, Find, Cells, Commands: the chain of inserted nodes with their persistent
--   nodes, and the lemmas that the operations share. Soft.Insert, Remove, Contains, Rebuild: the operations.
-- Soft.Transitions: the changes of a node's state by the operations of SOFT/SOFTList.h.
-- LinkFree.SkipList, with Memory and Search: LinkFree/LinkFreeSkipList.h.
-- Soft.SkipList, with Memory and Search: SOFT/SOFTSkipList.h; Lifecycle: what a crash leaves of a node.
-- Bench: include/BenchUtils.h, the client of the sets: settings and `parseArgs` (Parse), the number of keys that
--   a thread inserts at the start (Shares), the kinds of its calls (Ratios), `benchOpsThread` (Thread), its
--   loop that fills the set (Fill) and its loop of calls (Work), over any set that fills SetSpec.
-- RandomLevel: `get_random_level` of SLBench.cpp, with the generator as an argument.
--
-- Fuel: `walk` bounds the rounds of a search, `rounds` the retries after a lost compare-exchange. A call
-- that runs alone needs one round, and a walk longer than the list; the loops of SOFT that move a node to its
-- next state need two.
--
-- The benchmark's loop that fills a set has a round of fuel for each key drawn; its loop of calls takes the
-- values of `bench_stop` as a list.
--
-- A sequence of calls needs an object (for SOFT, one of each kind) of the allocator for each call, and a walk
-- longer than the nodes and the calls together. After a crash memory outside of the chunks is zero, and the
-- pool of objects is empty but for the volatile nodes of SOFT.
--
-- NVRAM gets an object when the object is flushed; of a tower of a skip list, which takes several cache
-- lines, the first line only. For the persistent nodes of SOFT, a cache line that is written back early is
-- covered too.
--
-- Not modelled: the allocator include/ssmem.c, a copy from ASCYLIB; include/rand_r_32.h and
-- include/barrier.h, third-party code as well; the flush instructions of include/common.h; the main
-- programs of the benchmarks and what include/BenchUtils.h prints, times and waits for; the scripts. Memory
-- orders weaker than sequential consistency are not modelled. Interleavings are not modelled as runs: the
-- theorems on runs are about calls that run alone, one after the other (for SOFT on lists of nodes that are
-- all inserted, which is what such calls leave), and LinkFree.Transitions and Soft.Transitions are
-- about any answers that a call gets from memory.
pub mod Bench
pub mod Common
pub mod LinkFree
pub mod RandomLevel
pub mod SetSpec
pub mod Soft
