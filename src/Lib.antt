-- ===== src/Lib.antt =====
-- Vemory, a key-value server with a semantic cache: strings under SET, GET and DEL, and vectors with
-- answers under VSET, VGET and VDEL. Commands arrive as RESP arrays; writes are applied to the stores
-- in memory, appended to a log and fed to replicas, and the stores are saved in snapshots.
--
-- How the parts fit together. The bytes of a connection (TcpConn, Executor) are decoded into tokens (Decode),
-- tokens into a request (Command, Request) that is dispatched (Dispatch), and a write goes through one
-- function (Mutation) that changes the string store (KvStore) or the semantic cache (Index), and then
-- encodes the request (Encode) for the log (Wal) and for the replicas (Backlog), which apply it to
-- stores of their own (Slave). The semantic cache keeps three structures together: the nodes under
-- ids and user keys (Storage), the vectors (Embed) and the order of use (Lru), from which it takes
-- the entry to evict at the limit. At a start the settings are read (Config), and the log is applied
-- again (Mutation.Replay).
-- Snapshots (Snapshot) hold the string store (KvStore), the nodes (Index.Persist, Codec) and the vectors
-- in one file, written through binary streams (Stdio) by a child process.
--
-- Files and sources:
--   Prelude, Decimal, Map    shared: lists, bytes, numbers in text, association lists
--   Decode                   src/protocol/resp/RespDecode.cc
--   Encode                   src/protocol/resp/RespEncode.cc
--   Command, Request         src/protocol/{CommandType,RequestContext}.cc
--   Stdio, KvStore           src/storage/KvStore.cc
--   Lru                      include/vemory/util/LruOrder.h
--   Storage, Codec           src/storage/{VNodeStorage,RespVNodeCodec}.cc
--   Embed                    src/index/USearchEmbedIndex.cc
--   Index, Index.Persist     src/storage/VNodeIndex.cc
--   Wal                      src/persist/WalManager.cc, include/vemory/persist/AofWriter.h
--   Mutation                 src/mutate/MutationApply.cc
--   Mutation.Replay          src/persist/WalManager.cc, Replay
--   Dispatch                 src/protocol/dispatcher/*.cc
--   Backlog                  src/replication/ReplicationBacklog.cc
--   Slave                    src/replication/ReplicationSlave.cc
--   Snapshot                 src/persist/SnapshotManager.cc, include/vemory/persist/RdbFormat.h
--   Executor                 src/protocol/ProtocolExecutor.cc, include/vemory/net/MessageBuffer.h
--   TcpConn                  src/net/TcpConnection.cc, its output
--   Config                   src/util/Config.cc
-- A C++ class is a record of its fields, and a method is a function that returns the new record beside
-- the status; an enum of statuses keeps its constructors. A hash map is an association list, whose
-- order stands for the order of the iteration, which the theorems do not fix. A std::list is a list of
-- nodes with iterators that are numbers. Bytes are numbers, a float is its bits.
--
-- Bounds and fuel. `std::size_t` sums that a peer controls, ids of 16 bits, lengths of 32 bits and
-- offsets of 64 bits wrap as in the source. The number of rounds of a loop is a structural argument:
-- the tokens and nodes that are left, 65535 for the search of a victim as in the source, a round for
-- each node and one more for the eviction (theorems show that it ends before), a round for each byte
-- that is kept or copied in the backlog (each round drops or copies at least one) and for each byte of
-- the log in its replay, of the replication stream and of the input of a connection (each command has
-- at least one), and thirteen for a read of a replica, each of which uses up input or a state; a write to a
-- socket has three rounds more than the kernel gives answers. The largest count
-- that `reserve` takes without throwing is a parameter, `room`.
--
-- Parameters. The usearch library, strtof, the comparison of floats, the clock, the writer behind the
-- log (an abstract class of the source), the replication master, the file system's failures and the
-- kernel's answers to writes are arguments of the definitions
-- that use them; no law of theirs is assumed unless a theorem names it.
--
-- Not modelled: the reads of sockets and the event loop, threads, io_uring, logging and the
-- startup code are input and output; null output pointers are not passed.
pub mod Prelude
pub mod Decimal
pub mod Decode
pub mod Encode
pub mod Command
pub mod Request
pub mod Map
pub mod Stdio
pub mod KvStore
pub mod Lru
pub mod Storage
pub mod Codec
pub mod Embed
pub mod Index
pub mod Wal
pub mod Mutation
pub mod Backlog
pub mod Dispatch
pub mod Config
pub mod Executor
pub mod Slave
pub mod Snapshot
pub mod TcpConn
