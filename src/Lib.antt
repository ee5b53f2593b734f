-- ===== src/Lib.antt =====
-- A verification of parts of MRC, the runtime for streaming pipelines: its control plane server, the
-- life cycle of its services, and the channels, addresses and memory pools that its nodes use. Paths
-- are from the repository's root.
--
-- The parts and how they interact. The control plane (cpp/mrc/src/internal/control_plane/server) keeps
-- the streams of its clients in a ConnectionManager and one SubscriptionService for each service that
-- clients share. Clients register instances on their stream, get a tag for each role they take, become
-- members and subscribers of roles, and report the nonces of the updates they have applied. A dropped
-- member is latched until all subscribers have reported the nonce of the update that leaves it out. Both
-- are VersionedStates, which a batched loop asks to issue their updates. All runtime components derive
-- from Service (cpp/mrc/src/internal/service.cpp), which orders start, stop, kill and join. Nodes pass
-- data through channels, of which RecentChannel drops the oldest element, and take memory from pools. A
-- Runner runs the instances of a node at the same time and reports how they ended. The pipeline's
-- Controller turns each new assignment of segments into calls of its PipelineInstance, whose segments are
-- services; the ModuleRegistry gives the constructors of their modules, and the builder of a segment names
-- its objects, each below the modules that it is built in. A RemoteDescriptor manager keeps
-- an object until the last token of it has come back; the object is encoded in a CodableStorage, whose
-- views are in registered blocks of memory. On each client a ConnectionsManager follows the server's
-- connections, and asks it for the addresses that it does not know; an Instance passes the updates of
-- the services on and answers them. The Client of the
-- control plane writes their requests and routes the server's events to them. Bitmap, Ranges and
-- Partitions divide the CPUs among the parts of the system; Engines gives each engine group its CPUs, and
-- its factories hand them out to the launches of runnables.
--
-- Files, their code, and how they correspond:
--   Prelude, Prelude/*      names of the libraries, tests, lists, `std::map` as a sorted list, bits
--   ControlPlane/Tagged     Tagged: blocks of 2^16 tags, `next_tag`, `is_issued_tag`, `is_valid_tag`
--   ControlPlane/Issuer     TaggedIssuer: the multimap of instance ids and tags
--   ControlPlane/Events     ClientInstance and the messages that are written to it
--   ControlPlane/Versioned  VersionedState: `mark_as_modified`, `issue_update`
--   ControlPlane/Role       Role: members, subscribers, nonces, latches
--   ControlPlane/Subscriptions  SubscriptionService, which fills the issuer's `do_drop_tag`
--   ControlPlane/Connections    ConnectionManager
--   ControlPlane/Server         Server: the handlers of all events, the updates, the histories of a server
--   ControlPlane/Client         ConnectionsManager and StateManager of the clients, as they follow the server
--   ControlPlane/AsyncClient    the clients' Client: requests, promises, and the routing of updates
--   ControlPlane/Instances      the clients' Instance: updates and drops of its subscription services
--   Service                 Service, with the derived class as the record Hooks of its virtual functions
--   Addresses               cpp/mrc/src/public/core/addresses.cpp
--   RecentChannel           cpp/mrc/include/mrc/channel/recent_channel.hpp
--   Memory/Blocks           memory_block.hpp and block_manager.hpp of cpp/mrc/src/internal/memory
--   Memory/Transient        transient_pool.{hpp,cpp} of the same directory
--   Runner                  cpp/mrc/src/public/runnable/runner.cpp: the tasks of the instances, turn by turn
--   Pipeline                pipeline_instance.cpp and controller.cpp of cpp/mrc/src/internal/pipeline
--   RemoteDescriptor        manager.cpp and storage.cpp of cpp/mrc/src/internal/remote_descriptor
--   Segment                 cpp/mrc/src/public/modules/segment_modules.cpp; Segment/Builder is
--                           cpp/mrc/src/internal/segment/builder_definition.cpp
--   Modules                 cpp/mrc/src/public/modules/module_registry.cpp
--   Bitmap                  cpp/mrc/src/public/core/bitmap.cpp over an interface of the hwloc bitmaps
--   Engines                 engine_factory_cpu_sets.cpp of cpp/mrc/src/internal/system, with the options of
--                           cpp/mrc/src/public/options/engine_groups.cpp
--   Engines/Factories       engine_factory.cpp, fiber_engines.cpp and thread_engines.cpp of
--                           cpp/mrc/src/internal/runnable
--   Ranges                  find_ranges of cpp/mrc/src/internal/utils/ranges.hpp
--   Partitions              div_even and device_best_match of cpp/mrc/src/internal/system/partitions.cpp
--   Codable                 CodableStorage of cpp/mrc/src/internal/codable, over the cache of Memory/Blocks
--   Codable/Decoding        decodable_storage_view.cpp and storage_view.cpp of the same directory, with
--                           RemoteRegistrationCache of cpp/mrc/src/internal/ucx
--   ReusablePool            cpp/mrc/include/mrc/data/reusable_pool.hpp over an interface of the channel
--   PortGraph               cpp/mrc/src/internal/pipeline/port_graph.cpp
--   Examples/*              runs on concrete data
-- Child modules are named for what they prove. A method is a function from the object's state to its
-- result and the state afterwards; what it writes to clients is part of the result. Exceptions and failed
-- checks are values: `none`, `threw`, `check_failed`, `error`, `fatal`.
--
-- Bounds: TagID is a 64-bit word and m_uid a 16-bit one, with their wrap-around; block numbers stay below
-- 2^28, as `Tagged::next` sees to. Nonces are numbers that do not wrap. The ids of requests and the counts
-- of CPUs are 64-bit words. The loops run over a list of the state or of the request, but for three:
-- find_ranges takes as many turns as there are values, and RoundRobinCpuSet and the search for the next
-- shared CPU in Engines start again at most once, if their set is not empty.
--
-- Threads meet step by step in two places. A turn of a Runner's task is one access of what the tasks share,
-- and a task takes eight turns. A turn of RecentChannel.await_read_until is one reading of the clock, with
-- what the other threads do while the call waits; how many turns there are is given with the call.
--
-- The interfaces of other libraries are records of operations with what is relied on: Bitmap.Hwloc,
-- ReusablePool.Channel, Modules.Sorting and Ranges.Sorting. Each has an instance among the examples. That the
-- pool of a TransientPool hands out blocks that nobody else holds is a hypothesis of what is proved of it.
--
-- Not modelled: logging; the DCHECKs, which a release build leaves out; gRPC, ucx, fibers and hwloc, which
-- the code calls; threads inside one service at once (its methods are taken one after another, with the
-- calls that a virtual function makes of its own service); the manifolds, the edges and the node
-- operators, the joins of a Runner, a stream whose writer is gone before the stream is dropped, the encoded objects' typed layer, the streams of the control plane's
-- clients, and the parts of the system's topology that are calls of hwloc.
pub mod Prelude
pub mod Addresses
pub mod Bitmap
pub mod Service
pub mod ControlPlane
pub mod RecentChannel
pub mod Memory
pub mod Codable
pub mod ReusablePool
pub mod Runner
pub mod Pipeline
pub mod RemoteDescriptor
pub mod Segment
pub mod Modules
pub mod Engines
pub mod Ranges
pub mod Partitions
pub mod PortGraph
pub mod Examples
