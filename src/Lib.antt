-- ===== src/Lib.antt =====
-- matching-engine-cpp: a price-time-priority matching engine, its risk checks, its gateway and its
-- wire protocol, and what makes them correct.
--
-- The program. Commands (`include/types.hpp`, `include/gateway.hpp`) come off the wire
-- (`include/protocol.hpp`, `src/protocol.cpp`), are numbered and queued by the gateway, pass the risk
-- checks (`include/risk.hpp`) and, through their symbol's shard (`src/sharded.cpp`), reach the
-- matching engine (`include/matching_engine.hpp`, `src/matching_engine.cpp`), which answers with
-- events and trades.
--
-- Which file models what.
--   Base        the shared names, tests, integers, lists, byte strings, maps and the loop rule
--   Types       include/types.hpp
--   Engine      the engine's state (`Engine`, `Book`, `Location`), `event`, `reject`
--     PriceMap    one side of a book: std::map<long long, std::list<RestingOrder>>
--     Matching    the two loops of `add`: `match_all` is the outer, `sweep` the inner, `visit` a round
--     Commands    `add`, `cancel`, `replace`, `rest_order`, `remove_resting`, `best_bid`, `best_ask`
--     Priority    price-time priority as a queue of resting orders, and `add` against it
--       Volume      what `available_volume` adds up, which wraps around at 64 bits
--     Snapshot    `snapshot`, `load_snapshot`, `serialize_side`, `restore_side`
--       Again, Sides, Counter, Books, Keys, Restored   what a loaded snapshot holds
--     Invariant   when an engine is in order, and that each command keeps it so
--     Counted     the numbers of the events, and the volume of the trades, of each command
--     Reached     the engines that commands lead to
--   Json        include/json.hpp, the values
--     Numbers     the C library's conversions of numbers, as far as the JSON texts and the log use them
--     Dump        src/json.cpp: `dump_value`, `dump_string`
--     Parse       src/json.cpp: the parser, with the text from its position on as the position
--       Ending, Tokens, Returns   that it returns on every text
--     RoundTrip   what is written is read back
--   Risk        include/risk.hpp
--   Symbols     include/symbol_table.hpp
--   Gateway     include/gateway.hpp
--   Protocol    src/protocol.cpp and include/checksum.hpp
--   Sharded     src/sharded.cpp and the choice by command of include/threaded_engine.hpp
--     Routing     which shard a command concerns
--     Replay      `apply_record` and the loop of `replay_shard`
--     Restart     the shards with their files: `snapshot_all`, `restore_from_snapshots`, `replay_shard`
--       Snapshots   the rebuilding from a snapshot and the records after it
--   Recovery    src/recovery.cpp, over the contents of a shard's two files
--     Moved       the move operations and the destructor, over the program's stores, each at a place
--                 of its own, and the files of the paths that their logs have
--   Threaded    include/threaded_engine.hpp: a worker's answer, and `drain`
--     Workers     its constructor, `start`, `stop`, `submit`, `run_worker` and `drain` as threads that
--                 take turns
--   Pool        include/object_pool.hpp: `PoolResource`, over the pointers that the memory holds
--     Sizes       the size that a request is rounded up to
--     Allocator   `PoolAllocator`
--   Net         src/net.cpp: `drain_connection`, over the answers of `recv`
--   Spsc        include/spsc_queue.hpp, with std::size_t counters that wrap around
--     Threads     its two threads, one access to the shared memory at a time
--
-- How the state corresponds. A `long long` is an integer ℤ; where its width matters (the codec, the
-- risk product, and the sum of `available_volume`, which wraps around) the width is written out.
-- `++sequence_` is taken not to overflow. A std::string is the list of its bytes. A std::map is the
-- list of its entries by rising key, a std::unordered_map an association list. A list node has an
-- address, taken from the counter `next_node`; an index entry holds the address, and reading through
-- it gives `dangling` where no such node is in the list that the entry names, as `pop_front` of an
-- empty queue does. The pool allocator is not visible at this level. A store's `handle_` is whether it
-- is open, and is then the file at the store's `wal_path`.
--
-- Loops and fuel. The loops of `add` run on the number of entries before them, and one more. The
-- parser runs on the length of its text, and one more: every nested value and every round of a loop
-- takes a character. The log's text is read by recursion on it, and the rounding up of a capacity on
-- 65 rounds, which is more than a 64-bit number can double. The loop of `drain_connection` runs on the
-- length of the buffer, and one more, and a queue is drained on its capacity, and one more. Running out
-- is the error `stuck`, or `unfinished` in a session.
-- Exceptions are the error `threw` with the message; the state of the engine at the throw is not
-- modelled.
--
-- Parameters. `std::stod` is an argument of the parser; the answers of `recv` and the handler with
-- its state are arguments of `drain_connection`; what `::operator new` returns is an argument of
-- `allocate`; what a move leaves of a string is an argument of what moves one. Whether a file can
-- be opened or renamed is an argument of the operations that do so. A floating-point JSON number
-- stands by the text that `%.17g` prints for it and by its integer part, which are what the program
-- uses of one.
--
-- Not modelled: what a crash of the machine loses of the data that a flush handed to the system;
-- the pinning of the threads to cores; sockets, polling and the multicast publisher; the demo and
-- the tests. In the commands of the sharded engine a shard's log is the list of the records
-- appended to it; Restart puts that log in its file.
pub mod Base
pub mod Types
pub mod Engine
pub mod Threaded
pub mod Pool
pub mod Net
pub mod Json
pub mod Risk
pub mod Symbols
pub mod Gateway
pub mod Protocol
pub mod Spsc
pub mod Recovery
pub mod Sharded
