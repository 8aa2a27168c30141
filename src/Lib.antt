-- ===== src/Lib.antt =====
-- RK-AVP, a library that runs graphs of media processing nodes: models of its core, and proofs.
--
-- A graph configuration names nodes, edges between their ports, and executors. It is validated
-- before a runner builds it: `Graph` holds the records of include/rkavp/graph_config.hpp,
-- `Graph.Validation` is `Graph::Validate` and `Graph.Acyclic` is `Graph::ValidateAcyclic` of
-- src/core/graph.cpp. A node is a life cycle around virtual hooks: `Node` models `Configure`,
-- `Open`, `Start`, `Process`, `RequestStop`, `Stop` and `Close` of src/core/node.cpp, and
-- `Node.Contract` the ports and options that a node declares. `MediaCaps` is the capabilities of
-- include/rkavp/media_caps.hpp, which validation compares along each edge.
--
-- Packets (`Packet`, `Timestamp`: include/rkavp/packet.hpp, timestamp.hpp) travel in bounded queues
-- (`Queue`: include/rkavp/bounded_queue.hpp). A method that waits on a condition variable is a
-- partial step: `none` is a caller asleep. The runner (src/core/graph_runner.cpp) accepts a packet
-- on a stream by its timestamp (`Runner.Stream`) and gathers the packets of a node's ports into
-- the input sets that the node is invoked with (`Runner.Sync`: `PrepareInvocation` and
-- `PruneImpossibleSyncPacketsLocked`).
--
-- `Runner.State`, `Runner.Edges`, `Runner.Inputs` and `Runner.Operations` are the runner itself:
-- `SetError`, `Cancel`, `AddPacket`, `SetInputTimestampBound`, `CloseInputStream`, `EnqueueEdge`,
-- `Deliver`, `DrainEdge` and `DrainInput`, each as one step. `Runner.Drain` takes the scheduling
-- of one queue's drains apart into its atomic actions, for any number of threads. The runner
-- posts its drains to the executors of include/rkavp/scheduler.hpp (`Scheduler`), whose `Stop` is
-- taken apart in the same way against the workers' wait (`Scheduler.Stopping`).
--
-- `Runner.Starting` is `Start`, with the tables that it builds (`Runner.Tables`), and
-- `Runner.Lifetime` is `Stop`, in two parts around its wait for operations that are under way; the
-- node classes are an argument, with the history of the calls they get. `Runner.Emission` is `Emit`,
-- by which a node's packets reach the observers and the edges of a port.
--
-- The observers of its outputs (`Runner.Observers`) have a queue and a thread each: the parts of
-- `ObserveOutput`, `EnqueueObserver`, `RunObserver`, `WaitForObservedOutput` and `CancelObserver`
-- under a lock are steps. So are those of `AddSource`, `AddSourcePacket`, `RemoveSource`,
-- `RestartSource` and `Stop` on the dynamic sources (`Runner.Sources`, `Runner.Restarts`);
-- `Runner.Templates` is the subgraph that `AddSource` makes from a slot's template; what `Start`
-- of a source's subgraph answers is an argument.
--
-- `Graph.Loader` is the YAML loader of src/core/graph_config.cpp, and `Graph.Merge` its
-- `MergeSubgraph`. The YAML library, the file system and the environment are the record
-- `Graph.Loader.Yaml`; a call of them answers or throws, and an exception of `weakly_canonical` leaves
-- the loader. A node may hold itself by an alias; that every node is a finite tree is a hypothesis,
-- `Graph.Loader.AreTrees`, of what says that loading ends.
--
-- `Builtins` is the nodes of src/core/builtin_nodes.cpp that keep a state: `Builtins.FlowLimiter`,
-- `Builtins.AdaptiveBatch` and `Builtins.PacketRing`, and `Builtins.StreamDemux`; what `Emit`
-- returns to them is an argument.
-- `Streaming` is the clock mapping and the jitter buffer of src/core/streaming_primitives.cpp.
-- `Plugins` is the plugin manager of src/core/plugin.cpp, which adds to the node types of `Registry`
-- what a library registers; the dynamic linker is an argument.
-- `Pool` is the buffer pool of src/core/buffer.cpp, `Registry` the tables of node types
-- (src/core/node_registry.cpp) and of side packets (src/core/services.cpp), and `Trace` the
-- circular buffer of src/core/trace.cpp.
--
-- A function that returns a `Status` early is a chain in the monad `Status.Result`. A string-keyed
-- map is an association list (`Prelude.Maps`), a set of strings a list (`Prelude.Names`). A
-- timestamp is a whole number, and lemmas that need the range of an int64 say so. The depth-first
-- search of `ValidateAcyclic` recurses on fuel, one more than the number of nodes, since each
-- visit puts a new node on the path; a batch's flush recurses on one round for each item, since
-- each round takes one. The loader recurses on one more than the depth of a value, and on one more
-- than the number of files, since a file that is being loaded is not loaded again. A method under
-- a lock is one step.
--
-- Not modelled: gauges, which are doubles, and logs; the hooks of other nodes, the hardware and
-- streaming backends, `ExpandEnvironment`, the bindings and the tools, which are input and output or
-- calls of other libraries.
mod Prelude
mod StatusCode
pub mod Status
pub mod Streaming
pub mod Timestamp
pub mod Packet
pub mod Queue
pub mod MediaCaps
pub mod ConfigValue
pub mod Node
pub mod Graph
pub mod Trace
pub mod Scheduler
pub mod Pool
pub mod Registry
pub mod Plugins
pub mod Runner
pub mod Builtins
mod Tests
