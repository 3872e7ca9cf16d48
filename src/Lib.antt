-- ===== src/Lib.antt =====
-- summerrpc: a verification library for the RPC framework of the package `summerrpc`.
--
-- A client's stub takes a connection from a pool and writes a packet; the connection's threads send
-- it and give the response to the caller. A server accepts connections, reads requests from each,
-- runs them in its loop, in threads or in processes, and sends responses.
--
-- The files, and what of the repository they model:
--   StaticList, StaticList/*: summerrpc/helper/list.py, the array of nodes with a free list.
--   Lru, Lru/*: summerrpc/helper/lru_cache.py on a heap of entries; Lru/Items is the plain list of
--     entries that it refines.
--   Exceptions: the class tree of summerrpc/exception.py, and pickling.
--   AtomicInteger: summerrpc/helper/atomic_integer.py.
--   Sockets, Sockets/*: summerrpc/helper/socket_util.py; Closing is `BaseSocket.close` in threads,
--     and Schedules what any turns of these come to.
--   Transport, Transport/*: the record protocol of summerrpc/transport.py over blocking sockets;
--     Transport/Streams is `RecordTransport`, over a stream.
--   Connection, Connection/*: `SharedBlockingConnection` of summerrpc/connection.py, its threads
--     and events in Connection/Threads; one event is what a thread does between two releases of a
--     lock, and a list of events an interleaving. Futures, Writes and Shutdown follow the futures of
--     writes, Waiting, Reads and Answered those of reads, and Seals the flags of `close`.
--     Connection/Simple is `SimpleBlockingConnection`; Beats is about the futures of heartbeats.
--   Iterator: summerrpc/helper/iterator.py.
--   ConnectionPool, ConnectionPool/*: summerrpc/connection_pool.py over an interface of what
--     its two subclasses do.
--   RpcServer/Builder, Lifecycle, Connections, Runner: summerrpc/rpc_server.py; the state of
--     `RpcServer` is split into its flags and pools, and its connections, which RpcServer/Open compares
--     with the open streams. Builder/Sizes is about what the builder lets through. RpcServer/Races is
--     `start` and `close` in threads, with Exclusion on it.
--   Text, Text/*: Python's methods of byte strings, as the program uses them, and decimal numbers.
--     Tables: its dict with texts for keys.
--   HttpTransport, HttpTransport/*: summerrpc/extension/http_transport.py; Parser is
--     `HTTPResponseParser`, Client `SimpleBlockingHTTPTransport` and Server `HTTPTransport.read`
--     over a stream. Steps, Chunks, Packets, Loops, RoundTrip, Requests and EndOfStream hold proofs.
--   Messages: summerrpc/request.py and result.py. Serializer: summerrpc/extension/base_serializer.py.
--   Invoker, Invoker/*: summerrpc/invoker.py, with `get_connection_from_pool`. Protocol,
--     Protocol/*: summerrpc/protocol.py and filter.py.
--   Exporter, Exporter/*: summerrpc/exporter.py and decorator.py.
--   Stub, Stub/*, ReferArgument: summerrpc/stub.py and refer_argument.py.
--   Calls, Calls/*: what `Runner` of summerrpc/rpc_server.py makes of one packet, and `RpcInvoker` of
--     the answer; Trip follows the bytes of a call and Whole joins it with the stub and the exporter.
--   Url, Url/*: summerrpc/helper/url.py. Registry, Registry/*: summerrpc/registry.py and cluster.py;
--     Registry/Nodes creates the nodes, Registry/Entries joins them with what a server registers.
--   ConfigurationCenter, ConfigurationCenter/*:
--     summerrpc/configuration_center/zookeeper_configuration_center.py.
--   RetryPolicy: summerrpc/helper/retry_policy.py. TokenBucket, RedisBucket:
--     summerrpc/rate_limiter/token_bucket.py and redis_token_bucket.py.
--   Prelude, Prelude/*: numbers, lists and case distinctions. Tests/*: concrete inputs.
--
-- The check of `SharedBlockingConnection.close` reads two flags that the end of another `close` writes
-- without the lock; the event `straddles_close` of Connection/Threads is a thread that reads the one
-- before and the other after. Connection/Simple is for one thread.
--
-- Connection and the server's table of connections use the list of Lru/Items for their caches, the
-- specification of `LRUCache`. A future is a number, and logs record what each was given: the future
-- of a heartbeat can be in the log of writes and in that of heartbeats. What sockets, clocks,
-- factories, methods and the registry answer is an argument or part of an event.
--
-- Bounds and fuel: an identifier of a packet is below 2 ^ 32, as `struct` demands. The walk over a
-- cache has its size and 1 as fuel, since it meets each entry and then the head; closing a shared
-- container has the length of its list, since each turn removes an element. `RetryPolicy.run` takes
-- fuel, one unit for each attempt and one for the end, and the loop of `get_connection` one for each
-- connection that it takes from its container. `auto_get` has one unit for each byte of the buffer and
-- for each stage, since a turn takes a line or goes on to a later stage. The loop that registers a
-- node takes fuel; two units are enough while ZooKeeper has no other writer.
--
-- Parameters: tornado's stream and its list of methods; the format, json or msgpack, of a serializer;
-- ZooKeeper's operations; `quote`, `unquote` and `urlparse`; the order in which a dict is iterated;
-- `random.choice`; what `getattr` finds on a class; whether Redis has forgotten an entry; how a method
-- runs and what it gives.
--
-- Formats are taken to read back what they write of plain values only: dates, which json and msgpack
-- write as texts, are not plain, nor are texts beyond ASCII, whose str and unicode differ.
--
-- Not modelled: the serializers' use of pickle, json and msgpack, and the small helpers, which wrap a
-- lock, a timer or a table of interfaces; errors of the transport other than those that the threads
-- catch; the lengths of waits; logging and printing.
pub mod AtomicInteger
pub mod Calls
pub mod ConfigurationCenter
pub mod Connection
pub mod ConnectionPool
pub mod Exceptions
pub mod Exporter
pub mod HttpTransport
pub mod Invoker
pub mod Iterator
pub mod Lru
pub mod Messages
pub mod Prelude
pub mod Protocol
pub mod RedisBucket
pub mod ReferArgument
pub mod Registry
pub mod RetryPolicy
pub mod RpcServer
pub mod Serializer
pub mod Sockets
pub mod StaticList
pub mod Stub
pub mod Tables
pub mod Tests
pub mod Text
pub mod TokenBucket
pub mod Transport
pub mod Url
