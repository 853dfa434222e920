-- ===== src/Lib.antt =====
-- raft-kv is a replicated key-value store: a consensus core without input or output (crates/raft),
-- the state machine that applies committed commands (crates/kvsm), a log-structured storage engine
-- (crates/storage), a server that hosts the three (crates/server), clients, benchmarks, and a
-- simulator that runs the same core on virtual time (crates/sim). A host calls the core with ticks,
-- messages and client requests, and takes from it what is to be persisted, sent and applied; the
-- committed entries go to the state machine in log order, whose contents the engine keeps.
--
-- Files and code:
-- Base is shared: Boolean tests and case splits (Base/Tests), lists measured by the native numbers
-- (Base/Lists), sorting (Base/Sort), byte strings (Base/Bytes), and `BTreeMap` as an association
-- list in key order (Base/BTreeMap, Base/BytesMap).
-- Raft is crates/raft. Raft/Types is src/types.rs and Raft/Log is src/log.rs. The methods of
-- `RaftNode` in src/node.rs are spread over Raft/Node (state, voters, timer, hard state),
-- Raft/Replication (sending, commit index, reads), Raft/Election, Raft/Follower (AppendEntries and
-- InstallSnapshot), Raft/Leader (proposals, replies, compaction) and Raft/Step (`tick`, `step`, and
-- the calls of a host as events that make up a run). Every method that
-- does more than read a field has a function of its name, with `&mut self` as a node taken and a node
-- returned; the helpers stand for its loops and inner blocks. Raft/Log/*, Raft/Advance and Raft/Keeps/* show what each operation keeps,
-- Raft/Safety what runs keep, and Raft/Quorum/* what quorums are good for.
-- Kvsm is crates/kvsm/src/lib.rs: the `Backend` trait as a record of operations with laws, which
-- `MemBackend` fills (Kvsm/Backend), and the state machine over any backend (Kvsm/Machine). Kvsm/Effect
-- is its specification, functions from keys to values and from sessions to their last command.
-- Storage is crates/storage: Storage/MemTable is src/memtable.rs, Storage/Bloom is src/bloom.rs, and
-- Storage/Visible and Storage/Merge are `VisibleIter` and `MergeIter` of src/iter.rs. Storage/Error is
-- src/error.rs, Storage/Wal is src/wal.rs and Storage/Manifest is src/manifest.rs. Storage/SsTable is
-- src/sstable.rs: its types and the coding of blocks, the builder in SsTable/Builder, opening and
-- lookups in SsTable/Reader, the iterator in SsTable/Iteration; the other files under it show what a
-- built table holds (Layout, Built), how a lookup finds it (Scanning, Lookup) and both together
-- (RoundTrip). Storage/Db is src/db.rs: the state, its options and its snapshots in Storage/Db itself,
-- point reads and scans in Db/Reads, `flush` in Db/Flush, writes and opening in Db/Writes. `compact_level`
-- and its loop are in Db/Compact, and the merge inside it, with the rules for what is dropped, in
-- Db/Merging. Db/Layers says when the memtable and the levels hold given versions, and Db/PointReads what a read
-- finds of them; Db/Newest, Db/Written, Db/Flushed and Db/Isolation follow them through writes and
-- flushes; Db/Ordered, Db/Decisions and Db/Kept are about what a compaction keeps, Db/Outputs about the tables it writes, Db/Merged about the merge of its sources, and
-- Db/Compacted puts the three together. Storage/Batch is what a batch says about a key.
-- Storage/Samples is a serializer for test data. Sim is crates/sim: Sim/Rng is
-- src/rng.rs, whose `chance` is left out since it compares floats, Sim/History is src/history.rs, and
-- Sim/Wgl is the linearizability checker of src/wgl.rs, with what it is to check in Sim/Wgl/Order.
-- Server is crates/server: Server/LogStore is src/logstore.rs over an interface of the engine, with the
-- law that a batch which the engine accepts is written, and leaves at a key what the last operation on it
-- says. Server/StorageEngine fills it with the `Db` of Storage/Db: a valid database accepts a batch that
-- fits a table and leaves no compaction due after a flush.
--
-- Conventions. A panic is `none`: the assertion in `handle_append_entries` that no committed entry is
-- overwritten, a truncation into the snapshot, the `expect` in `restore`. Debug assertions are
-- compiled out and have no effect. Terms, indices, read rounds and sizes are unbounded
-- numbers: the source counts them in 64 bits and increments them by one. Where 32-bit or 64-bit
-- arithmetic is meant to wrap (the random generators, the timer, the hashes) the wrap is written out.
-- The `while` loop that looks for the first index of a conflicting term runs on fuel, the index it
-- starts from: each round lowers the index by one, and the loop stops at the first index of the log. Every other loop is
-- recursion on the list or on the count it runs over; the rounds of `VisibleIter::next` are bounded by
-- the versions it has left, and a scan takes at most as many calls as there are versions.
-- A file is its bytes; that of the log also counts the bytes known to have reached the disk, and a crash
-- keeps these and any part of the rest. A manifest's directory is its two files, and a crash inside a
-- save stops inside one of its calls, in their order, where a write leaves a part of its bytes. The directory of a database is its
-- table files by number and those of the manifest; the log stands in the state of its writer. Errors of the operating system are
-- left out, but for a read past the end of a file. `replay` and `decode_block` run on the length of
-- their data, of which each round takes some bytes; a lookup in a table and a call of its iterator run
-- on the number of its blocks and one more, of which each round takes one. The search of the checker
-- runs on the expansions it has left, as in the source, and pops what needs none by recursion on the
-- stack; its bit masks are lists of bits.
-- The sessions of the state machine are a hash map in the source and an ordered map here; `snapshot`
-- sorts them and nothing else depends on their order.
--
-- Parameters. The serializer (bincode) of snapshots, of batches of the log, of the index of a table and
-- of manifests is a pair of functions each, and the round trips assume that decoding undoes encoding.
-- The checksum (crc32fast) is a function into 32 bits; nothing is assumed about collisions. The product by the float 0.69 that chooses the number of probes of a
-- Bloom filter is a function; every value of it allows the proofs.
--
-- The loop of compactions has a number of rounds, and what does not end in so many is `none`; what an
-- error leaves of a database is left out. The iterators of tables that a merge runs over are read in
-- full first, in a call for each byte of the file and one more.
--
-- Not modelled. The listing of table counts of `Db`, the rest of the server,
-- the client library, the wire protocol, benchmarks, and the simulator's cluster. The messages of
-- several nodes are not put together into a cluster: a run is that of one node, with the messages of the
-- others as given events.
pub mod Base
pub mod Raft
pub mod Kvsm
pub mod Storage
pub mod Sim
pub mod Server
