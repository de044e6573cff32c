-- ===== src/Lib.antt =====
-- A verification library for sbio, the stream broker IO framework.
--
-- sbio reads steps of data out of streams of files. A StreamBroker reads one set of streams: it
-- discovers which groups and fields there are, keeps them in a MetadataInventory, and indexes the
-- steps of its streams a batch at a time. A DataSource owns the StreamBrokers; where a step is in one
-- StreamBroker only, it keeps a ChronologicalOrder of the steps of all of them. A BrokerGroup reads
-- the segments of one group, which its GroupTopology gathers from the inventories of the
-- StreamBrokers and locates by that order. The threads that iterate over a DataSource take their
-- steps from a distribution of the execution policy, which has more steps indexed when it runs out.
--
-- The modules, with the code that each one is about:
--
-- Prelude: the names of the libraries, Boolean tests, and lists at native indices.
-- Io: src/lib/sbio/core/io.hh and the reads of src/lib/sbio/core/stream.hh. IoStatus is IOStatus;
--   read_span and read_unit_at are Stream::read_span and Stream::read_unit_at over an engine's read.
-- Steps: src/lib/sbio/core/types.hh. StepBatch is StepBatch.
-- Chronology: src/lib/sbio/core/chronology.hh. The record ChronologicalOrder has the members
--   m_order, m_pending, m_next_ordinal and m_exhausted; create, locate, may_index, set_exhausted, add
--   and merge are the operations. merge is a loop on fuel, for which the number of pending steps is
--   enough. Order, Conserve and Complete hold the theorems on time order, on the steps that are
--   moved, and on where merging stops.
-- Execution.Serial: src/lib/sbio/execution/serial.hh. next_impl and next_batch_impl with the trigger
--   for more steps as a function on the caller's state.
-- Execution.Threaded: src/lib/sbio/execution/threaded.hh. A Move is one access of a thread to the
--   shared members of IterationState in next_batch_impl, release_step or end_iteration_impl; a Step is
--   a Move of any one of the threads, and Reach holds of the states of all interleavings. The atomic
--   accesses are taken as sequentially consistent.
-- Metadata: src/lib/sbio/core/metadata.hh and src/lib/sbio/util/parameters.hh. Names is FixedName,
--   Keys the keys and entries with their operator<, Sort is hd_sort, Search is hd_lower_bound, and
--   Inventory is MetadataInventory with register_group, add_field, finalize and lookup; its child
--   Access has the other queries. The binary search is on fuel, for which the length of the list and
--   one more is enough. Order holds the interface Less, which the keys' operator< fill and which the
--   sort and the search take as an instance.
-- Broker.Index: the generic index of src/lib/sbio/core/broker.hh with the rows of
--   src/lib/sbio/core/state_handle.hh. Index has find_row and preceding, Linked the row that is added
--   for a unit, and Scan generic_index. The format is an argument, IndexFormat, and so are the reads
--   of the engine. Walks along the rows are on fuel, for which the ordinal or the number of rows is
--   enough, and so are the loops of the scan, for which the capacity of the index buffer is enough.
-- Broker.Fetch: generic_fetch and generic_fetch_range of the same file.
-- Broker.Cache: PayloadOffsetCache of src/lib/sbio/core/state_handle.hh.
-- Broker.Lifecycle: the states of a StreamBroker in src/lib/sbio/core/broker.hh, from prepare to
--   advance_chunk; connections, discovery and indexing are arguments. Moved says by their resources
--   which roles move, and how.
-- Topology: src/lib/sbio/core/topology.hh. The record GroupTopology has the members of
--   GroupTopology; create is its constructor, locate and the getters by step are its members of the
--   same names. Collect and Slots are build_topology, over the inventories of Metadata. Its
--   source_brokers are taken to be set, as build_topology sets them.
--   Mapping has map_step; Segments is about the searches for segments.
-- BrokerGroup: the fetches of src/lib/sbio/core/broker_group.hh: fetch_next_for, fetch_steps_for and
--   fetch_range_for with the functions on batches that they use. The StreamBrokers are an argument with
--   a state of their own. Batch, Slots and Ranges say which steps are where in the buffers.
--   BrokerGroup.Results: get_data, resolve_data, get_multi_data and resolve_multi_data of the same file,
--   as the tables of pointers that they fill. What is in a buffer is an argument, and where a fetch
--   fails the status is returned in place of an array without segments.
-- Execution.Fetching: fetch_then_get and fetch_then_get_steps of src/lib/sbio/core/execution.hh, and
--   get_data_impl and get_data_steps_impl of src/lib/sbio/execution/threaded.hh.
-- DataSource: discover_metadata, merge_trigger and reindex_trigger of src/lib/sbio/core/datasource.hh, over
--   the operations of a StreamBroker. merge_trigger is on fuel: Measure counts what the streams have left
--   to read, which is enough. Entered says which steps an order gets of the streams.
-- Iteration.Plan: ZipFetchPlan of src/lib/sbio/core/iteration.hh. plan_fetches is its constructor, fetch
--   and fetch_batch its two overloads of fetch. The type of a group is a number, and the policy
--   fetches one after the other.
-- Iteration.Ranges: ZippedGroupRange and ZippedBatchRange of the same file and their iterators, over the next
--   of a distribution. The loop is on fuel; one more than the values there are is enough. Visited has the
--   loop for values of any type, Steps and Batches the ones of a serial DataSource.
-- Iteration.Sources: SourceSet of the same file, over the operations of a DataSource and under
--   Execution.Serial.
-- Result: CompositeDataResult of src/lib/sbio/core/result.hh. to_array gives the axes of the array, or none where an
--   axis is outside of its arrays; the size of a pointer and of an element are arguments, and the number of
--   axes that the arrays hold, the NCARRAY_MAX_NDIM of the array library, is 10 as a comment says.
-- Xtc1: the nested containers of src/lib/sbio/formats/xtc1: inspect_xtc1 and add_detector of traversal.cc and
--   traversal.hh, find_xtc_by_type of xtc1.cc, and the search of resolve_data of xtc1_traits.cc. A datagram
--   is the header at each offset; Tree says how a tree of Xtcs is laid out in one. The recursion is on
--   fuel, for which the extent of the tree is enough.
-- RandFmt: a super-block of src/lib/sbio/formats/random: write_super_block of randfmt.cc, and in Reader what
--   randfmt.hh and random_traits.hh read of it. A file is the list of its writes. Where no header
--   was written, what the bytes read as is an argument.
-- MemPool: src/lib/sbio/util/mem_pool.hh. get_block and free on the position of the next block.
--
-- Sizes and counters are natural numbers. The wrap-around of a machine word is written out where the
-- code can reach it: in the threaded counters, the group identifiers, the segment of a request, the
-- revision of an inventory and the last step of a range. A C string is the list of its characters;
-- its characters are taken to be ASCII, for which the order of char is that of the codes. Row
-- numbers are taken to be below NoRow, which they are as long as the index buffer has fewer rows.
--
-- Not modelled: the ranges of a SourceSet in src/lib/sbio/core/iteration.hh, the iterators and the
-- loading of a DataSource, the overloads of BrokerGroup with a callback and its constructor, the other
-- parts of the formats (they come in as arguments), storage and memory spaces, the distributions over
-- MPI and CUDA, the engines' system calls, the Python bindings. Bytes that are read are counted and
-- not held. The logger is left out.
pub mod Broker
pub mod BrokerGroup
pub mod Chronology
pub mod DataSource
pub mod Execution
pub mod Io
pub mod Iteration
pub mod MemPool
pub mod Metadata
pub mod Prelude
pub mod RandFmt
pub mod Result
pub mod Steps
pub mod Topology
pub mod Xtc1
