-- ===== src/Lib.antt =====
-- The portal framework: the memory allocators, the job system, a lock and the buffer streams of
-- its core library, the binary format and the archives of its serialization library, the
-- modules of an application, and the hierarchy of entities, the registry of resources, the
-- pools of descriptors and the selections of its engine, and the connections of its network
-- library.
--
-- core/portal/core/memory. `StackAllocator` (stack_allocator.h, .cpp) is a bump allocator over
-- a buffer; `BufferedAllocator` (stack_allocator.h) takes N of them in turn, one per frame;
-- `PoolAllocator` and `BucketPoolAllocator` (pool_allocator.h) hand out equal slots and keep
-- the list of free slots inside them. Memory.StackAllocator, Memory.BufferedAllocator,
-- Memory.PoolAllocator and Memory.PoolAllocator.Bucket model them: one function for each
-- method, with the name of the method, the state as a record, and an exception as the error of
-- a `Result`. A pointer is its offset in the buffer. `size_t` arithmetic wraps at 2 ^ 64. The
-- loop of `PoolAllocator::clear` runs on fuel equal to the number of slots, one round for each,
-- which the proofs show to be enough.
--
-- core/portal/core/jobs. A worker has a `WorkerQueue` (worker_queue.h, .cpp): a local and a
-- stealable queue for each priority, with atomic counters beside them, modelled by
-- Jobs.WorkerQueue. The `Scheduler` (scheduler.h, .cpp) has one context for each worker and one
-- for all other threads, modelled by Jobs.Scheduler; its workers make rounds, in which they
-- resume a job from their cache or fill the cache from their queue, from another worker or from
-- the global queue. The `Counter` of a group of jobs grows on dispatch and shrinks when a job
-- ends (`FinalizeJob::await_suspend`, job.cpp), modelled by Jobs.Counter.
-- Jobs.Scheduler.History puts these together: the histories of a scheduler are the sequences of
-- rounds, dispatches, suspensions and ends, in any order and by any thread.
-- Jobs.ConcurrentQueue states what the code relies on of `moodycamel::ConcurrentQueue`, a
-- library; Jobs.ConcurrentQueue.ListQueue shows that lists satisfy it.
--
-- core/portal/core/concurrency/reentrant_spin_lock.h. `ReentrantSpinLock` is a lock that its
-- owner may take again: Concurrency.ReentrantSpinLock, cut at each access to its members, and
-- Concurrency.ReentrantSpinLock.History, where the accesses of several threads interleave. The
-- hash of a thread is a parameter; accesses have one order, so weak memory is not modelled.
--
-- serialization, and core/portal/core/reflection/property.h. A `Property` is a tagged sequence
-- of bytes (Serialization.Property). `BinarySerializer` writes properties one after another,
-- behind a header, and `BinaryDeserializer` reads them (binary_serialization.h, .cpp):
-- Serialization.Binary. A stream is the list of its bytes; the reader keeps what is left of it
-- and how far its buffer is filled. Serialization.Values has the overloads of `add_value` and
-- `get_value` (serialize.h), one for each shape of a value. Vectors of GLM vectors or matrices
-- are written and read by the code in a way that loses their bytes; the round trip leaves them
-- out. A read of what is not there, which the code leaves undefined, is an error.
--
-- application/portal/application/modules. `ModuleStack` (module_stack.h, .cpp) computes a level
-- for each module from its dependencies, sorts the modules by level, and calls them in this
-- order: Application.ModuleStack. The recursion over the dependencies runs on fuel; more than
-- the number of modules is enough, since no chain of visited modules is longer. The sort is a
-- parameter.
--
-- engine/portal/engine/ecs/entity.cpp and components/relationship.h. The children of an entity
-- are a doubly linked list through their components: Engine.Hierarchy. Its abstract view is
-- Forest, a list of children for each entity; the registry of EnTT, a library, is an interface,
-- of which Tests has an instance. The loop over children runs on fuel; the number of children
-- is enough. Engine.Hierarchy.Descendants has the iterator over all descendants.
--
-- engine/portal/engine/resources. `ResourceRegistry` (resource_registry.h, .cpp) loads
-- resources by jobs: Engine.Resources, with the job of `load_resource` cut at the points where
-- it takes the lock, and Engine.Resources.History, the histories of all jobs. The database and
-- the loaders are parameters.
--
-- serialization/portal/serialization/archive.h and archive.cpp. `ArchiveObject` holds named
-- properties, whose buffers hold bytes or other such objects: Serialization.Archive, and
-- Serialization.Archive.Reading for `get_property`. archive/json_archive.cpp makes a JSON
-- document of an archive (Serialization.JsonArchive) and reads one
-- (Serialization.JsonArchive.Deserialize). The JSON library is a parameter: its values are
-- those of the kinds that the code switches on.
--
-- core/portal/core/buffer.h and buffer_stream.cpp. The streams that write and read a `Buffer`:
-- Buffers, with Buffers.Writing on the content of the buffer and Buffers.Reading on what is
-- read of it. A buffer is its bytes and whether it owns their memory; growing one that does not
-- is an error, since `resize` deletes that memory.
--
-- engine/portal/engine/renderer/descriptor_allocator.cpp. Pools of descriptor sets:
-- Engine.Descriptors. The Vulkan device is a parameter, and Engine.Descriptors.Ownership states
-- what its calls do to pools.
--
-- networking/portal/networking/connection.cpp and connection_manager.cpp. The life of
-- connections: Networking, with Networking.Tracking on what the manager knows and
-- Networking.History on sequences of calls. The sockets are arguments of the steps.
--
-- engine/portal/engine/editor/selection_system.cpp. The selections of the editor:
-- Engine.Selection, with sets of names as its abstract view in Engine.Selection.Refinement.
--
-- `wait_for_counter` and `signal_wake` (scheduler.cpp, scheduler.h) are cut at their atomic
-- operations in Jobs.WakeSignal, whose steps of several threads interleave in any order. Each
-- other method of the job system is one step: what a thread sees between two atomic operations
-- of another thread inside a method is not modelled. A random number generator is an argument.
-- Not modelled: the threads themselves, statistics, profiling and logging, and the contents of
-- coroutines. The maps, `update` and the copies of archives, the application loop, input,
-- servers, and the rest of the engine are not modelled.
--
-- Base holds what the parts share: results with errors, numbers and tests, lists with
-- occurrence counts, association lists, and sums over the numbers below a bound.
pub mod Application
pub mod Base
pub mod Buffers
pub mod Concurrency
pub mod Engine
pub mod Jobs
pub mod Memory
pub mod Networking
pub mod Serialization
