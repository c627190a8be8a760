-- ===== src/Lib.antt =====
-- Verification of the Mooncake MACA NoF dma-buf files.
--
-- The program is the client side of a distributed object store and its RDMA transport. The store
-- client (mooncake-store/src/client_service.cpp) puts objects: it asks the master for replicas,
-- submits transfers, waits for them and finalizes each object with the master. The transport
-- (mooncake-transfer-engine/src/transport/rdma_transport) registers memory with each device,
-- publishes it, cuts a request into slices and posts them. mooncake-transfer-engine/src/
-- memory_location.cpp finds and names the NUMA node of memory, which the choice of a device reads.
-- mooncake-store/src/http_metadata_server.cpp keeps the metadata that nodes find each other by.
-- spdk/lib/dma/gpu_dmabuf.c registers GPU memory for the replicas on NVMe over fabrics and answers
-- the keys by which a target reaches it.
--
-- Files and code:
--   Prelude     shared names: library names, Boolean tests, lists over native numbers, integers.
--   Decimal     `std::to_string`, `std::stoull` and `std::stoi` as far as locations use them.
--   Location    memory_location.cpp; Location/RoundTrip, Regions and Pages prove about it.
--   Put         client_service.cpp. Put/Types is `PutOperation` and `ReplicaTransferSummary`;
--               Put/Decision `DetermineFinalizeDecision`; Put/Start `StartBatchPut` and
--               `StartBatchUpsert`; Put/Transfers `SubmitTransfers` and `WaitForTransfers`;
--               Put/Finalize `FinalizeBatchPut`; Put/Upsert `FinalizeBatchUpsert`; Put/Pipeline
--               `CreatePutOperations` and `CollectResults`; Put/SameNode
--               `BatchPutWhenPreferSameNode`; Put/Dispatch `BatchPut`; Put/Entry `BatchUpsert` and
--               the replica counts from the environment; Put/Single `Put` and `Upsert` of one object.
--   Rdma        the transport. Rdma/Regions is the memory regions of rdma_context.cpp
--               and Rdma/Gid its `reprobeAutoGid`; of
--               rdma_transport.cpp, Rdma/Select is `selectDevice`, Rdma/Slicing
--               `submitTransferTask`, Rdma/Status `getTransferStatus`, Rdma/Registration the
--               registration of local memory and Rdma/Registration/Refresh
--               `refreshLocalDeviceDesc`.
--   Http        http_metadata_server.cpp.
--   Dmabuf      spdk/lib/dma/gpu_dmabuf.c. Dmabuf/Types is its state and what it calls; Dmabuf/Tree
--               the search trees; Dmabuf/Ranges the tests, keys and finders; Dmabuf/Contexts the GPU
--               contexts; Dmabuf/Register `gpu_dmabuf_register_mr` and `gpu_dmabuf_translate`;
--               Dmabuf/Lifecycle the interface over the table of domains; Dmabuf/Runtime the
--               wrappers for MACA; Dmabuf/Runs sequences of calls. Dmabuf/Invariant, Caching and
--               Steps keep the invariant, Accounts, Exports, Balance, Releases and Creation balance
--               what is held, Lookup, Serving, RoundTrip, Wraps and Safety state the rest.
--   Segments    the segments and the local memory of a client, of client_service.cpp.
--               Segments/Timer is the timer of a graceful unmount, Segments/Local
--               `RegisterLocalMemory` and the registration of GPU memory with SPDK; Segments/Held
--               and Kept are about what the engine holds, Segments/Mounting about a refused mount.
--   Replicas    the choice of a replica, the single `Get` calls, `Copy` and `Move` of
--               client_service.cpp.
-- The Tests modules run the definitions on concrete values.
--
-- State is passed explicitly: an operation of the source that changes an object is a function from
-- the object before to its result and the object after. What the code calls outside the repository
-- is a parameter: the master's calls, the transfer submitter and its futures, the topology, the
-- verbs library, the choice among GIDs and the GPU runtime (as for a build with USE_MACA), the
-- kernel's page query, the environment, the text of error codes and the write mode of a configuration. Logging, metrics and
-- asserts are left out. Machine words are written with their wrap-around where the source computes
-- with unsigned words that can wrap; addresses of buffers are numbers. In a sequence of calls of
-- gpu_dmabuf.c every call has answers of its own; what a failed release leaves at the verbs library
-- or the runtime is part of the state. `none` is an exception or a null dereference in Put/SameNode
-- and Put/Dispatch. The keys and the slices of a batch are a list of pairs: with fewer slices than
-- keys the code reads out of range, which has no behaviour to model.
--
-- Fuel: the loop over the slices of a request takes as many steps as the request has bytes, which
-- is enough because a step advances by a positive block size; the attempts to find a device for a
-- slice are kMaxRetryCount - retry_cnt. The retries of the timer are counted down from three.
-- All other loops are recursion on lists. The search
-- trees of gpu_dmabuf.c are the lists of their entries in the order of the keys; an operation on a
-- domain runs under its lock, and several threads are a sequence of operations.
--
-- Not modelled: the set-up of devices and their first GID, endpoints and the worker pool; the
-- handshake and the batch calls of the transport; batch gets, queries, tasks and removals of the
-- client; the real and the dummy client, the Python bindings, the
-- CUDA wrappers of gpu_dmabuf.c, which pass their calls on, tools and build files.
pub mod Prelude
pub mod Decimal
pub mod Location
pub mod Put
pub mod Rdma
pub mod Http
pub mod Dmabuf
pub mod Segments
pub mod Replicas
