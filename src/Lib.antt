-- ===== src/Lib.antt =====
-- Models of parts of four programs of this repository, and theorems about them. Each directory p1 to p5 is
-- a program of its own; they share nothing but copies of system.c.
--
-- p1 evaluates an arithmetic expression by compiling it. p1/lexer.c cuts the text into tokens
-- (lexer_open, tokenize, mktoken), p1/parser.c builds a tree of nodes from them by recursive descent
-- (parser_open, top, expr and the functions below it), p1/main.c prints the tree as a C function
-- (reflect, generate_with_sigmoid), has p1/jitc.c compile and load it, calls it with `sigmoid`, and
-- prints the result.
--   * Jit/Syntax, Jit/Outcome: the data of p1/lexer.h and p1/parser.h; `Parser` is `struct parser`.
--   * Jit/Lexer is p1/lexer.c; Jit/Lexer/Spell has its theorems.
--   * Jit/Parser is p1/parser.c, one function for each of its functions, and one for each of its two
--     loops. Jit/Parser/Grammar is the grammar in its comments, as a data type of derivations; the
--     other children relate the two.
--   * Jit/Reflect is the generation of C in p1/main.c, with the meaning of the lines that it prints;
--     Jit/Reflect/Meaning is the answer that an expression has, without them, and Jit/Reflect/Run
--     compares the two.
--   * Jit/Main is parser_open and `main`; Jit/Main/Correct has the theorems on the whole program.
--   * Jit/Doubles is what is taken as given: the type `double` with its operations, exp, strtod, and the
--     way of a number through %f, which infinities and NaNs do not survive. No law of arithmetic is assumed.
-- Allocation and the calls of the operating system are arguments that say whether they succeed. The
-- functions of the parser run on fuel, 12 for each token and 12 more, and the loop of the lexer on
-- one more than the length of the text: between two tokens read the calls nest less than twelve deep,
-- and a round of the lexer takes a character. The position in the array
-- of tokens is the list of the tokens that are left. Ids are natural numbers: an `int` would wrap
-- after 2^31 nodes. Releases of memory and the bodies of p1/jitc.c are not modelled.
--
-- p3 counts words in a balanced tree that is kept in a mapped file. p3/avl.c is the tree, p3/scm.c the heap.
--   * Avl/Tree has `struct node`, the rotations and `update`; Avl/Remove has remove_node; Avl/Handle
--     has the functions on `struct avl`. A pointer is the tree below it; each node and each word has
--     the address that the allocator gave, and the state lists the addresses that were freed.
--     `none` is a read through NULL.
--   * Avl/Strcmp is strcmp. Avl/Words and Avl/Erase are the list of counted words that the tree stands
--     for, with insertion and removal on it; Avl/Order, Avl/Vacate and Avl/Removal show that the
--     tree follows the list, Avl/Balance, Avl/Growth, Avl/Settle and Avl/Shrink that it is balanced,
--     Avl/Contract and Avl/Undo what the functions on the handle promise together.
-- The n-th call of the allocator answers `alloc n`. Depths are integers without bounds. The counters
-- grow without bound, where the program's would wrap after 2^64 insertions; they wrap when they are
-- decremented at 0. In the model of the tree a word keeps its text after it was freed; the tree is not
-- put into the heap.
--   * Scm/Heap is p3/scm.c, the heap in the mapped file, over the bytes of the file: file_size, scm_open,
--     scm_malloc, scm_strdup, scm_free. A pointer is its distance from `addr`, so a NULL is `none`.
--     Scm/Blocks has the bytes as blocks, Scm/Fit is about the walk for a free block, Scm/State has
--     the heap in order, Scm/Push is about a new block, Scm/Contract about scm_malloc and scm_free.
-- The walk has one round more than the capacity, of which each takes a step of ten bytes or more. A
-- store past the end of the file counts as a fault, also where the last page would take it. scm_close,
-- the shell and the terminal are not modelled.
--
-- p4 keeps keys and values in a log on a block device; p4/index.c maps the hash of a key to an offset
-- in the log.
--   * Index/Hash is its hash, with every operation cut to 64 bits; Index/Table is the table: `update`,
--     `grow`, index_update and index_lookup. A pointer that index_update returns is the place of
--     the offset that it points to, and `assign` writes through it.
--   * Index/Search follows a search before and after a write; Index/Store has update and lookup together,
--     Index/Growth growth and the whole interface, Index/Room that a search reaches an empty place.
-- The rounds of a search are counted down from the capacity, as in the program. EXIT is `exit` or
-- `none`. The comparison with the load 0.70 is made on fractions, without rounding. The counter of
-- entries does not wrap.
--   * Log/Device is p4/device.c over the bytes behind the descriptor: geometry, device_open, device_read,
--     device_write. What fstat, pread and pwrite answer is an argument. `Call` is the outcome of a call
--     of the log: EXIT or a failed assertion, the error status, a loop without end, or success.
--   * Log/Buffer is the write buffer of p4/logfs.c and roundUp of p4/utils.c, Log/Cache the read cache,
--     Log/Store `struct logfs` with the body of `flusher`, logfs_append, logfs_read and the others.
--     Prelude/Bytes has memory as lists of bytes, numbers in little-endian order, and size_t.
--   * Log/Window is what a buffer holds, in order; Log/Append is about write_buffer_add, Log/Heads,
--     Log/Block and Log/Dequeue about write_buffer_dequeue, Log/Coherent about the cache.
--   * Log/Flush has the invariant of a log and the effect of a write to the device, Log/Round a round of
--     the flusher, Log/Writes logfs_append, Log/Reads the loop of logfs_read_with_flush, Log/Contract
--     and Log/Opening the log against a list of bytes that grows.
--   * Kv/Meta is the packed header of a record, with its numbers in little-endian order; Kv/Raw is
--     p4/kvraw.c: kvraw_append, kvraw_lookup, kvraw_open and the visitor. Kv/Records and Kv/Lookup are
--     about an append and a lookup.
--   * Kv/Db is p4/kvdb.c: chain_lookup, `mutate` and the functions that call it, kvdb_lookup;
--     Kv/Restore is kvdb_open and kvdb_open_with_restore. Kv/Keys is about the comparisons of keys,
--     Kv/Chain about chain_lookup, Kv/State has a database as lists of records, Kv/Contract is about
--     kvdb_lookup, Kv/Change about `mutate`, Kv/Map about each of them as a map from keys to values,
--     Kv/Update about both together, Kv/Opening about kvdb_open.
--     Index/Reference is about the pointer that index_update returns.
-- The client waits whenever it signals the flusher, so one round of the flusher is a part of the call;
-- the threads, locks and signals themselves are not modelled. The block size is positive. write_buffer_dequeue
-- may go back to its label once, logfs_append may flush once for each byte of the ring, and a read has a
-- round for each byte that it copies, which is enough as each round copies one or more. The offsets of
-- the device do not wrap. A search through a chain has a round for each byte in front of its newest
-- record, and offsets fall along a chain; a restore has a round for each byte of the device. A call
-- that fails with -1 ends a run: what it leaves behind in the cache is not followed. Pointers to keys
-- and values are the bytes that they lead to; only a NULL for the length of a value is kept. The
-- aligned_alloc of write_buffer_dequeue, whose result the code does not test, always succeeds, and so does
-- the start of the flusher. The block size that write_buffer_dequeue takes as an int is a number
-- without bounds.
--
-- p2 runs threads by turns on one processor. p2/scheduler.c keeps them in a linked list.
--   * Scheduler/Threads is the list, as the statuses in order, with thread_candidate, the changes of a
--     switch, and the relation `Step` of the switches; Scheduler/Choice is about thread_candidate,
--     Scheduler/Turns about what the switches reach.
-- The search runs at most one round for each thread and one more, which is all that a search from
-- behind the current thread takes. The jumps, the stacks and the alarm are the steps themselves. An
-- alarm before the first thread has run, or after the last one, is not among them: it reads through NULL.
--
-- p5 is not modelled.
pub mod Prelude
pub mod Jit
pub mod Avl
pub mod Index
pub mod Log
pub mod Kv
pub mod Scm
pub mod Scheduler
