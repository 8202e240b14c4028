-- ===== src/Lib.antt =====
-- InMemDB: a key-value server in C with expiring keys, an append-only file and a pool of workers.
--
-- The parts, and the files here that model them:
--   Entry        include/entry.h, src/entry.c: a key, a value and a deadline (0 for none).
--   HashTable    include/hash_table.h, src/hash_table.c: the chained table and its growth. The invariant
--                and `lookup`, what the table says of a key, are in HashTable/Valid.
--   Stdio        what src/persistence.c and src/command.c use of printf, fscanf, fread and strtoll.
--   Persistence  src/persistence.c: appending to data.aof, loading it, rewriting it.
--                Persistence/Log has the abstract view, a list of changes; Persistence/Restart is about a
--                rewrite and the next start.
--   Command      src/command.c: parse_command and command_execute, with each command a function.
--                command_loop is in Command/Loop. Command/Journal has the contract between a command,
--                the table and the file, and Command/Served the states that sequences of commands
--                reach.
--   WorkerPool   include/worker_pool.h, src/worker_pool.c: is_read_command, which chooses the lock, and
--                WorkerPool/Queue, the linked list of tasks in a store of addresses; WorkerPool/Life,
--                worker_pool_init and worker_pool_destroy; WorkerPool/System, the workers.
--   Server       include/server.h, src/server.c: the slots of the clients and a round of the select loop;
--                Server/Start has server_start as a whole.
--   World        the C library as state: answers of the allocator, the clock and stdio, the number of
--                live blocks, the two files, and whether a read has written past its block.
--   Base         shared lists, bytes, integers; Examples, Command/Tests: concrete runs.
-- The server cuts what a client sends into lines and submits them; a worker pops a task, takes a lock
-- by `is_read_command` and calls `command_execute`, which parses the line, appends to the file through
-- Persistence, and then changes the table through HashTable; at start-up `persistence_load` fills the
-- table from the file.
--
-- A definition has the name of its C function. A branch that the C code has inside a function is a
-- helper: `replace_value`, `insert_entry` and `grow` in hash_table_set_with_expiry; `read_string`,
-- `read_expiry`, `restore`, `load_set`, `load_del` in persistence_load; `execute_set` to `execute_exit`
-- and `dispatch` in command_execute. A pointer to a struct that a function changes is the struct that
-- it takes and returns; a pointer into a chain is the key of the entry; a C string is the list of its
-- bytes, and tests for null pointers have no counterpart. `size_t` and the hash wrap at 2 ^ 64; a sum
-- or difference of `time_t` wraps at 64 bits. The load factor is compared exactly, as the division of
-- doubles does below 2 ^ 52 entries. Every failure of malloc, calloc, fopen, fprintf, fclose and rename
-- is an answer of the world; a failed write leaves a part of the bytes, as long as the world says.
-- An open file is the list of the bytes that are left, or of those not yet flushed.
--
-- Threads: what a thread does between two points where others can see it is one step, and a run is any
-- sequence of steps. `worker_main` is the type Step, with a stage for each worker; the queue is there a
-- list, and WorkerPool/Queue/Fifo relates the linked list to it. A worker in pthread_cond_wait is at the
-- stage `asleep`, from which only a signal of worker_pool_submit, the broadcast of worker_pool_destroy
-- or a wake-up without a cause brings it back to the test of its loop. A command under a lock runs on
-- the table as it was when the lock was taken, and puts the table that it leaves in place when it gives
-- the lock back, so that of two commands that change the table at once one would be lost; what it does
-- to the heap and to the file is one step. The server sees the pool through an
-- interface, the records Workers and PoolLaws of Server/Start, or through `submit` alone;
-- Server/Start/Linked fills it with the linked list. select, accept, recv, send
-- and the calls that make sockets, locks and threads are inputs: each round has the answers that it
-- gets. A resource (descriptor, mutex, condition, lock, thread) is an entry of a list, and giving back
-- what is not in the list is an error. The branches of server_start are helpers: `dismiss` for the pipe,
-- `admit` for a new connection, `serve_slot`, `receive_bytes` and `process_lines` for a client.
--
-- Bounds: parse_command runs on fuel of one more than the bytes of the line, and the loop of
-- persistence_load on one more than the bytes of the file. The loop over the lines of a client runs on
-- fuel of one more than the bytes in its buffer, and the loop that frees queued tasks on more than their
-- number. Each round takes at least one byte or task, so no run comes to an end by the fuel. The select
-- loop and send_all run on the list of answers that they get, and yield `none` if it is used up. In
-- parse_from and load_lines a run out of fuel is a value of its own, `none`, apart from -1 and from 0.
-- persistence_load allocates `key_length + 1` bytes, wrapped at 2 ^ 64; a read of more bytes than that
-- is recorded as an overrun, behind which the state stands for nothing that C defines.
--
-- Not modelled: src/main.c, which calls hash_table_create, persistence_load, server_start and
-- hash_table_destroy one after the other, since server_start sees the workers through an interface
-- without the table; the messages on the terminal; get_worker_id, which only serves them; of src/server.c the
-- set of descriptors that select is asked for; what a process does with a descriptor that another
-- thread has closed.
pub mod Base
pub mod World
pub mod Entry
pub mod HashTable
pub mod Stdio
pub mod Persistence
pub mod Command
pub mod WorkerPool
pub mod Server
pub mod Examples
