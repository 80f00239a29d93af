-- ===== src/Lib.antt =====
-- A model of xredis-client, a coroutine client for Redis, and what holds of it.
--
-- A command of RedisClient or RedisCluster becomes a list of words (Client), written as a request by
-- the builders (Command). The coroutine that waits for the reply and the bytes of the request go into
-- a ring (Ring), from which the writer takes bytes and the reader takes the coroutine whose turn it
-- is. The reader gets replies from the parser (Parser), which makes values (Value) of the bytes that
-- recv delivers. In a cluster the words go to the connection of a slot (Connection).
--
-- Files and code:
--   Base       shared names, lists, integers, decimal numerals (std::to_chars, std::from_chars)
--   Outcome    the codes that functions return
--   Value      include/RedisValue.h, src/RedisValue.cpp: the tagged union of a reply; in
--              Value/Dump and Value/Escape its text in JSON
--   Parser     src/RedisParser.cpp: read_line, read_bulk, stoll_view; in Parser/Replies the
--              recursive parser, parse, try_parse and try_parse_n
--   Command    include/RedisCommander.hpp: command_unpack and the build_commands functions
--   Ring       include/mpsc_ring.hpp: the ring that one thread uses
--   Shared     include/mpsc_ring.hpp: the ring that several threads use, one access at a time
--   Connection src/RedisConnection.cpp: crc16, get_slot, iptouint32, uint32toip
--   Connection/Hello  the options of a connection, and the bytes that connect_spot sends first
--   Connection/Open, Connection/Seeds  connect_spot and connect_cluster
--   Cluster    include/RedisCluster.hpp: parse_error, the hash and find_shard;
--              in Cluster/Slots the slots that connect reads
--   Client     include/RedisClient.hpp, include/RedisCluster.hpp: the words of each command and the
--              slot that the cluster client chooses
--   Client/Reader, Client/Writer, Client/Worker  include/RedisClient.hpp: the coroutines of a connection;
--              in Client/Outage runs of the worker
--   Subscriber include/RedisSubscriber.hpp: the requests of a subscriber and the loop that sends them
--   Awaiter    include/RedisCommander.hpp: the workers of an operation, and await_suspend of it and of a
--              single command
--   Chain      include/RedisCommander.hpp: the words that a command adds to a pipeline, and its slot
-- A module of a component that is named for a statement (Parser/RoundTrip, Ring/Order) holds proofs.
--
-- State. The parser is its line buffer, its position and the results of the calls of recv still to
-- come, each of which delivers bytes, would block or fails; nothing else is known of the socket. The
-- coroutine and the non-blocking version of a reading function differ in what happens when no result
-- of recv is left, which is an argument: the coroutine waits, the other returns EAGAIN. A byte
-- is a natural number, size_t is kept modulo 2^64 where it can wrap. The ring's two arrays are
-- functions of the index, and a coroutine is a number.
--
-- Bounds. The recursion of the parser has one unit of fuel for each byte that is buffered or still to
-- be delivered, and one more: a level takes at least one byte, so the fuel is never used up. The
-- largest number of elements that a vector can hold is a parameter. The reading of a double
-- (std::from_chars) and its text (std::to_chars) are parameters, too: the text of a double has no
-- line break and reads back as the double.
--
-- The model is of a build with -fno-exceptions, as the Release flags have it: where
-- std::vector::reserve throws, the process ends.
--
-- The shared ring is a step relation: threads with a program counter, whose accesses to the atomics
-- and the cells interleave in any order. Counters stay below 2^63, so that the stop bit is not
-- reached by counting.
--
-- Not modelled: the runtime of xnet.hpp (io_uring, timers, coroutine frames), TLS, relaxed memory
-- orders, push_n and reset of the shared ring, the signal to the writer, what the cluster does
-- with a redirection that it has read, ownership and freeing of memory.
pub mod Base
pub mod Value
pub mod Outcome
pub mod Parser
pub mod Command
pub mod Ring
pub mod Connection
pub mod Client
pub mod Cluster
pub mod Chain
pub mod Shared
pub mod Awaiter
pub mod Subscriber
