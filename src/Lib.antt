-- ===== src/Lib.antt =====
-- A verification library for the streaming core of Pothos: the queues and buffers that carry samples
-- and messages between blocks, the lock that gives one thread at a time a block's actor, the topology
-- that connects blocks, and the registry of plugins that they come from.
--
-- The parts, and how they meet:
--   * RingDeque (include/Pothos/Util/RingDeque.hpp) is the ring that every queue stands on. It keeps
--     the index mask, the `size_t` wrap-around of the front index and the cells without an element.
--     RingDeque/Rep says which list a ring holds; RingDeque/Deque is the bounded deque that it
--     implements, and RingDeque/Refine proves it.
--   * OrderedQueue (include/Pothos/Util/OrderedQueue.hpp) puts elements back in the order of their
--     indices. OrderedQueue/Order has the indices that go round, OrderedQueue/Inv the invariant,
--     OrderedQueue/Release the loop of `push`, OrderedQueue/Push and OrderedQueue/Make the operations.
--   * Buffer (include/Pothos/Framework: DType.hpp, SharedBuffer.hpp, ManagedBuffer.hpp, BufferChunk.hpp;
--     lib/Framework/SharedBuffer.cpp, lib/Framework/BufferChunk.cpp) has the fields of the buffers, the
--     subset constructor, in Buffer/Alias the aliases of circular buffers, and in Buffer/Copy the next
--     buffers of a copied chunk.
--   * Manager (lib/Framework/BufferManager.cpp; GenericBufferManager.cpp and CircularBufferManager.cpp of
--     lib/Framework/Builtin) hands buffers out over an ordered queue. A generic manager cuts a slab into
--     them: Manager/Slots says which region of the slab a buffer is, and Manager/Generic has `init`,
--     `push` and `pop`. Manager/Circular has those of the circular manager, whose front buffer is a
--     window that goes round a buffer that is mapped twice.
--   * Accumulator (lib/Framework/BufferAccumulator.cpp, lib/Framework/BufferPool.cpp) has the buffers that
--     wait at an input. Accumulator/Stream has the bytes they show in a memory; Accumulator/Push,
--     Accumulator/Pop and Accumulator/Require have the operations, with the copy into a buffer of the
--     pool in Accumulator/Require/Copy and the pool in Accumulator/Require/Pool.
--   * Label (include/Pothos/Framework/Label.hpp) and Input (lib/Framework/InputPort.cpp,
--     include/Pothos/Framework/InputPortImpl.hpp, and the inputs of postWorkTasks in
--     lib/Framework/WorkerActor.cpp) have the buffers and labels of an input port, over the accumulator:
--     Input/Bytes is about the bytes that labels mark, Input/Labels about the consumed labels.
--     Input/Samples is a port for the examples.
--   * Output (lib/Framework/OutputPort.cpp, include/Pothos/Framework/OutputPortImpl.hpp, and the outputs
--     of postWorkTasks) has what an output posts, and the loop that brings it to the subscribers, in
--     Output/Deliver; Output/Pops is about the manager of the output.
--   * Work (preWorkTasks in lib/Framework/WorkerActor.cpp, include/Pothos/Framework/WorkInfo.hpp) has what
--     a call of `work` finds at the ports: Work/Outputs is the loop over the outputs, Work/Ready the whole.
--   * Port (lib/Framework/InputPort.cpp, include/Pothos/Framework/InputPortImpl.hpp) has the queues of
--     messages and slot calls of an input port; Port/Slots also has the loop of handleSlotCalls in
--     lib/Framework/WorkerActor.cpp over them.
--   * Actor (lib/Framework/ActorInterface.hpp) is a step relation between threads: each step is one
--     access to what they share, in any order, with sequentially consistent memory.
--   * SpinLock (include/Pothos/Util/SpinLockRW.hpp) is a step relation of the same kind, for many readers
--     or one writer.
--   * Topology (lib/Framework: PortsAndFlows.hpp, TopologyImpl.hpp, TopologyCommit.cpp, Topology.cpp,
--     TopologySquashFlows.cpp, and the subscriptions of WorkerActor.cpp) has ports and flows.
--     Topology/Connect has the calls that connect and disconnect and the port infos. Topology/Squash
--     makes nested topologies flat: Topology/Squash/Resolve says which ports a port stands for,
--     Topology/Squash/Flatten which flows there are, Topology/Squash/Through completes the flows that pass
--     through. Topology/Wired, Topology/Rounds, Topology/Blocks and Topology/Sync are the
--     commit of the flat flows.
--   * Registry (lib/Plugin: Registry.cpp, ModulePaths.cpp, Module.cpp, Static.cpp, Plugin.cpp) is the tree
--     of plugins. Registry/Lookup, Registry/Valid, Registry/Keeps and Registry/Below have the laws of the
--     tree, Registry/Spec the partial map that Registry/Refine proves it implements, Registry/Tracks the
--     paths by module, Registry/Loading and Registry/Unloading the life of a module, Registry/Events the
--     calls of handlers.
--   * WorkerPorts (lib/Framework/WorkerActorPortAllocation.cpp) has the ports of a worker by name and by
--     index, their allocation and automatic deletion. WorkerPorts/Slots and WorkerPorts/Sound keep the
--     pointers by index, which WorkerPorts/Bounds follows.
--   * Base has the shared names, the lists over native numbers, and the arithmetic of 64-bit words.
--
-- Failed assertions, accesses out of bounds and loops that never end are `none` (in a manager
-- `stuck`; in the accumulator and the ports asserts are left out, as in a release build, and
-- the theorems have their conditions as hypotheses), so a theorem that a call gives `some` result is also a theorem that it ends safely. The
-- fuel of a loop is the number of its elements; of `nextPow2` it is 65, more than a 64-bit word can
-- be doubled before it is 0; of the loop in OrderedQueue's `push` it is one more than its entries,
-- each of which a round clears; of the count of next buffers it is one more than the length that
-- remains, which each round makes less where the buffers have positive lengths.
--
-- The calls between nested topologies go as deep as these are nested, which the fuel of
-- Topology/Squash bounds: the theorems take a rank of topologies that gets smaller inside.
--
-- The allocators, and the reference counts that BufferPool and preWorkTasks ask for, are parameters:
-- the theorems on `init` take what the allocators give as a hypothesis, a plain
-- piece of memory of the size asked for, or one that is mapped twice and has room for a buffer. The
-- object type of messages is a type parameter. The flows of an object that is a topology, the ports an
-- object lists, whether buffer managers can be installed and a block accepts a switch, and which
-- objects are event handlers, are parameters as well, since a proxy is asked for them, and so is
-- `std::to_string`, of which the results differ for different numbers and are all digits. Names of ports,
-- uids, objects and modules, which are only compared, are numbers. Futures are run in order, and a
-- plugin's module, which it refers to weakly, is taken to live until the plugin is removed.
--
-- The order of threads within a port is left out: the functions of Input and Output hold the locks.
-- The sort of the posted labels and the calls of slots, which run a block's own code, are parameters.
--
-- Not modelled: label propagation, which blocks override, the choice of buffer managers, domain and
-- network flows, the text of plugin paths, and the parsing of data types; and the parts that are
-- calls of the operating system, of templates over run time types, of sockets or of JSON. Reference
-- counts and destructors are not in the model: a buffer comes back by the call of `push`.
pub mod Base
pub mod RingDeque
pub mod OrderedQueue
pub mod Buffer
pub mod Manager
pub mod Port
pub mod Registry
pub mod Accumulator
pub mod Label
pub mod Input
pub mod Output
pub mod Actor
pub mod SpinLock
pub mod Topology
pub mod Work
pub mod WorkerPorts
