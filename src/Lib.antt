-- ===== src/Lib.antt =====
-- go-cachex: the in-process cache handlers, the deduplication of concurrent loads, and the lock, the
-- queues, the identifiers, the indexes and the versions that are kept in Redis.
--
-- The program is a Go library of caches behind one interface, `Handler` of cache.go. Its concrete
-- handlers keep entries in memory: `LRUHandler` (lru.go) in the order of use, `ExpiringHandler`
-- (expiring.go) in a map that a background sweep cleans, and `LRUOptimizedHandler`
-- (lru_optimized.go) in shards with an approximate order. Two more combine handlers:
-- `ShardedHandler` (sharded.go) sends each key to one of several handlers by its hash, and
-- `TwoLevelHandler` (twolevel.go) puts a fast handler before a large one. All of them check their
-- arguments as validate.go does. `flightGroup` (ctxcache.go) makes concurrent loads of a key one.
-- Other parts coordinate processes through Redis: `DistributedLock` and its manager
-- (distributed_lock.go), `QueueHandler` (queue.go), `DelayQueue` (delay_queue.go), `IDGenerator`
-- (id_generator.go), `CacheIndexManager` (cache_index.go) and `VersionTracker`
-- (resource_version.go). `DurableChannel` (durable_channel.go) is a channel that Redis backs, and
-- `HotKeyCache` (hotkey.go) a map that many processes share.
-- `MultiLevelCache` (multi_level_cache.go) puts a handler before an `AdvancedCache`
-- (advanced_cache.go) in Redis.
-- `ObjectPoolManager` (object_pool.go) keeps objects ready.
--
-- Base        shared names, Boolean tests, the integers, lemmas on lists
-- Cache       cache.go: the errors; validate.go: `validate_key` is `ValidateKey`, and so on
-- Table       Go maps as association lists; linked lists whose elements are named by numbered
--             pointers (`container/list`, and the list of lru_optimized.go)
-- Lru         lru.go. Defs has the methods (`get` is `GetWithCtx`, `set_forever` is `SetWithCtx`, and
--             so on), Spec a plain list of entries in the order of use, Refines and History relate them,
--             Behaviour has what callers rely on
-- Expiring    expiring.go: Defs has the map and the methods, Sweep the sweep, Reads the reads
-- Optimized   lru_optimized.go: Defs has one shard, Handler the hash and the methods over shards,
--             Evict the second-chance scan, Shards the interleavings, Layout the constructor
-- Handler     the interface as a record of methods over a state, the laws that the combining
--             handlers rely on, and the proof that `LRUHandler` satisfies them
-- Sharded     sharded.go, for any handler; Batch has `BatchGetWithCtx`
-- TwoLevel    twolevel.go, for any two handlers
-- Flight      ctxcache.go: `flightGroup.Do` as steps of goroutines, whose loaders may panic
-- Ctx         ctxcache.go: the methods of `CtxCache` over any handler; what `Do` returns is an
--             argument of `get_or_compute`
-- Redis       the client go-redis: string commands as a record with their documented laws, what can
--             happen to a call, and a server in memory for examples
-- Lock        distributed_lock.go: Defs has `DistributedLock`, Manager `LockManager`, Exclusion and
--             History the calls of many instances, Ownership what a holder can do
-- Queue       queue.go: Server has the commands, Defs and Views the methods, Order and Agrees the
--             comparison with a plain list, Delays the delayed queue and the retries
-- Ids         id_generator.go: Defs has the methods and scripts, Format the inverse of `formatID`
-- Index       cache_index.go
-- Versions    resource_version.go
-- DeadLetters dead_letter_queue.go
-- Delay       delay_queue.go: Server has the commands, Scripts the Lua scripts, Defs and Tasks the
--             methods of `DelayQueue`, Consumer the consumers; Polls compares the loops of the
--             scripts, Moves and Others follow one task through them, Calls has the histories of
--             any number of instances, Safety, Leases, Exclusive and Held what such histories
--             keep, Losses and Starts what they lose
-- Channel     durable_channel.go: Server has the commands, on lists that expire, Defs and Flow the
--             methods of `DurableChannel`, Order, Steps, Lasting and Balance what a producer and a
--             worker keep, Restart the recovery, Losses what comes twice or not at all
-- Hot         hotkey.go: Defs has the local copy, Calls the methods of `HotKeyCache`, Manager
--             `HotKeyManager`, Order, Evicts and Sweeps what the cleanup evicts, Sharing what
--             instances read
-- Levels      advanced_cache.go (Advanced) and multi_level_cache.go (Multi, over any handler)
-- Pool        object_pool.go: Defs has the methods, Fills how full a pool gets
--
-- Redis is a parameter: each part takes a record of the commands that it calls, and its theorems take
-- their documented behaviour as laws. A Lua script is a function over these commands, which runs as a
-- whole. A call of the client is served, or is refused before the server sees it, or loses
-- its reply afterwards; which of these happens is an argument. The client refuses a call whose context
-- is that of a channel that has been closed. Between two calls of a method other
-- clients act. JSON, the text form of version numbers, tokens and snowflake numbers are arguments; an
-- item of a queue need not come back from its JSON text as it was. A list of a channel expires as time
-- goes by, and an index may hold something that is not a set.
--
-- How Go is modelled. A slice of bytes is an optional list of numbers, with nil apart from empty; a
-- string is a list. A time is a number of nanoseconds since Go's zero time, so `IsZero` is a test for
-- 0; a duration is an integer; lru_optimized.go keeps times in int64, which are bit patterns of 64
-- bits with wrap-around here. Each reading of the clock is an argument, and so are the outcome of a
-- loader, the state of a context at its check, and what other goroutines do to the shared
-- state while no lock is held. A method gives the new state and a result; a nil dereference and an
-- index out of range are the result `panic`. A method under one lock is one function; where a method
-- takes a lock twice, other goroutines run between its two critical sections. A pooled entry of
-- lru_optimized.go is blank when it comes back, so it is a fresh one. The hash is FNV-1a
-- of `hash/fnv`. A method without a context is the one with a background context. The goroutines that
-- `TwoLevelHandler` starts are jobs in its state that run in any order.
--
-- Fuel and bounds. The scan for a victim takes as many steps as the counter of the shard says, as in
-- the source, and then the tail. The sweep makes at most 16 rounds, as in the source. The loops that
-- double the number of shards run on 9 steps of fuel, enough because they stop at 256.
--
-- Decimal digits are written with as much fuel as the number counts, and one, which its number of
-- digits never exceeds.
--
-- Not modelled: `Stats` and most other statistics, which only report; loggers, hooks, tickers, worker
-- pools and the clock goroutines; `GetOrCompute` of `LRUOptimizedHandler`; `TTL` and
-- `LockWithTimeout` of the lock; the lock of a queue; the periodic tasks of an object pool; the batches
-- of `AdvancedCache`; the backends on Redis and ristretto, the key-value caches (kv_cache.go, model_kv.go,
-- model_cache.go), wrapper.go, pubsub.go, scheduler.go and the generic wrappers, which stand on
-- third-party clients or on the parts modelled here.
pub mod Base
pub mod Cache
pub mod Table
pub mod Lru
pub mod Expiring
pub mod Optimized
pub mod Handler
pub mod Sharded
pub mod TwoLevel
pub mod Flight
pub mod Ctx
pub mod Redis
pub mod Lock
pub mod Queue
pub mod Ids
pub mod Index
pub mod Versions
pub mod DeadLetters
pub mod Delay
pub mod Pool
pub mod Channel
pub mod Hot
pub mod Levels
