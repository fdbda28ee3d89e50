-- ===== src/Lib.antt =====
-- SoupDB, a database engine in Python: a verification library of its core.
--
-- The parts. A client's statements run in a session (engine/transactions/session.py), whose
-- transactions take locks from one lock manager (engine/transactions/lock_manager.py over
-- engine/transactions/strategies/strict_2pl.py) through the transaction manager
-- (engine/transactions/transaction_manager.py). Clients speak the wire protocol
-- (engine/transactions/protocol.py). A statement is split into tokens (engine/query/lexer.py),
-- parsed into expressions (engine/query/ast.py), bound to its parameters
-- (engine/query/params.py) and evaluated on rows (engine/query/evaluator.py). Rows become bytes
-- (engine/common/record.py), which pages hold; pages go through the buffer manager
-- (engine/storage/buffer_manager.py) to the disk manager (engine/storage/disk_manager.py). Sorts
-- that do not fit in memory go through run files (engine/algorithms/external_sort.py).
--
-- The files.
--   Common: results with Python's exceptions, dictionaries, bytes, `struct`, UTF-8, doubles.
--   Values: the objects of a row, and engine/common/schema.py.
--   Record: engine/common/record.py. `encode_as` is `encode_value` behind its None test, by column
--     type; `decode_as` is `decode_value` behind the flag. Frames and RoundTrip hold the proofs.
--   Storage/Disk: `DiskManager`, over the bytes of its file. Storage/Buffer: `BufferManager`; the
--     frames are an ordered dictionary, least recently used first, and `write_frame` is a client's
--     write into a frame that it has pinned. Storage/SlottedPage: engine/storage/_slotted_page.py;
--     Storage/SequentialPage: the header of engine/storage/_sequential_page.py in front of such a page.
--   Transactions/LockMode, Transactions/Strict2pl: `LockMode` and `StrictTwoPhaseLocking`.
--     `attempt`, `give_up`, `release` and `release_all` are the mutex blocks; Strict2pl/Acquire is
--     the polling loop, Strict2pl/Deadlock and Strict2pl/Cycle the wait-for graph and its search.
--   Transactions/Protocol: the frames, values and requests of engine/transactions/protocol.py; `decode_tagged`
--     is the chain of tests of `_decode_value`, with a function for each branch. Protocol/Results: EXECUTE and
--     the answers; `encode_table` and `decode_table` are the result sets of both versions, which differ in
--     the columns.
--   Indexes/KeyCodec: engine/indexes/_key_codec.py, the bytes of index keys.
--   Query/Ast: the expressions of engine/query/ast.py. Query/Params: engine/query/params.py.
--   Query/Lexer: engine/query/lexer.py; `step` is one round of the loop of `tokenize`. Query/Format:
--     engine/query/format_expr.py.
--   Query/Evaluator: `evaluate` of engine/query/evaluator.py, Query/Order: Python's comparisons that it
--     uses, Query/Like: the regular expressions of `_like`.
--   Transactions/Manager: `TransactionManager`. Transactions/Session: engine/transactions/session.py:
--     its `close`; Session/Undo is `_apply_undo` with the index maintenance of
--     engine/query/index_maintenance.py; Session/Locking the session and the locking file
--     organizations, and Locking/Programs `execute_statement`, where a statement is any sequence of
--     the executor's calls. Transactions/Catalog: what they use of the catalog, as a parameter of which
--     nothing is assumed. Locking/Calls, Ending, Statements, Strictness and TwoPhase hold the proofs.
--   Algorithms/Runs, Algorithms/ExternalSort: the run files and the sort of
--     engine/algorithms/external_sort.py; `merge_round` is a round of the loop of `_merge_runs`.
--
-- Concurrency. A mutex block is one step. A round of `acquire` carries the blocks that other
-- threads run between its own, that of `close` among them, in any number and order, so a
-- statement about every list of rounds is about every schedule of those blocks; the deadlock
-- search reads the table of one moment. In a session each call of `acquire` has its rounds, the
-- last of which ends after the deadline; other threads act on the lock table; their writes to
-- the catalog are not modelled.
--
-- Bounds and fuel. Numbers are natural numbers or integers without bound, as Python's; widths appear
-- where the code packs bytes. The deadlock search has fuel for the number of waiting transactions
-- and two more: a path has no node twice, and all but its last wait. The length of an integer in
-- bits, for its conversion to a double, stops at 1025, which is past every finite double.
-- `tokenize` has fuel for the length of the text and one more: each round passes a character.
-- Decoding a key has no fuel of its own: how many calls fit inside one another is the room that Python's
-- recursion limit leaves, an argument, and one call too many is a RecursionError.
-- Reading a run has fuel for its bytes and one round more, merging for the bytes of its inputs, the
-- passes for the number of runs: each round takes a record, and each pass leaves fewer runs.
-- `acquire` runs over a list of rounds, and is `none` while it still waits after them.
--
-- Not modelled: the protocol's sockets, the other page layouts, files, indexes, external
-- hashing, the parser, aggregates, definitions of tables inside a transaction, the operators and
-- plans of queries, the catalog, the plugins. A double is its 64 bits, compared by its exact
-- value; its arithmetic, the distances and polygons of geometry, and what str says of a
-- character are parameters. Messages of exceptions are left out, and the operating system's
-- failures, and Python's recursion limit but for the decoding of keys.
pub mod Algorithms
pub mod Common
pub mod Indexes
pub mod Query
pub mod Record
pub mod Storage
pub mod Transactions
pub mod Values
