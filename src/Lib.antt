-- ===== src/Lib.antt =====
-- A verification library for the C programs of this repository, each modelled as it is written.
--
-- Base holds what the models share: tests on numbers, lists, signed integers, and the functions of
-- the C library on bytes (strcmp, strchr, atol, `%ld` and `%*ld` of sprintf), with their laws in
-- Base/Bytes/Decimal and Base/Bytes/Text. Posix is a regular file as lseek, read and write see it
-- through one descriptor; Posix/Transfers has the laws of reading back what was written. Neither
-- meets a device error.
--
-- Db is the database library apue.3e/db/db.c. A handle (`Db`, the structure DB) carries the bytes
-- and the offset of the index file and of the data file, all fields that the code keeps, and the
-- trace of record locks; the calls err_dump and err_quit end a run as `fatal`. Db/State has the
-- structure, its constants and the monad; Db/Records the functions on one pointer or record
-- (_db_readptr, _db_readidx, _db_readdat, _db_writedat, _db_writeidx, _db_writeptr); Db/Search the
-- hash and the two chain walks (_db_hash, _db_find_and_lock, _db_findfree); Db/Api the operations
-- of a client (db_open, db_fetch, db_store, db_delete, db_rewind, db_nextrec) with _db_dodelete.
-- The proofs follow the layers. Db/Layout says what it means that a pointer, a record or a chain
-- stands in the files, how the readers read it and what the writers leave; Db/Chain and Db/FreeList
-- walk chains; Db/Steps runs the writers on accepted arguments; Db/Invariant is the invariant of
-- the whole database, a list of records for the free list and for each of the hash chains, all
-- apart in both files, and below it are the operations against their abstract view, a map from keys
-- to texts. Db/Sequential treats db_nextrec, Db/RoundTrip the single record. The two chain walks
-- and the loop of db_nextrec run on fuel; more fuel than the longest chain, or than the rest of the
-- file, has records is enough. Not modelled: other processes between two steps of a call, failing
-- system calls, memory (malloc, db_close, _db_free), and the effect of sprintf on overlapping
-- buffers, for which the result of copying forward is taken. A key that overruns `idxbuf` ends a
-- run as `overflow`.
--
-- MemStream is apue.3e/exercises/fmemopen.c: fmemopen with its mode string, and the callbacks for
-- read, write and seek on one buffer, whose offsets are converted to int. malloc's result is an
-- argument. MemStream/Valid and MemStream/Sizes are about its sizes, MemStream/Invariant about all
-- calls, MemStream/Transfers about reading what was written.
--
-- Transfer has the loops round short transfers: readn and writen of apue.3e/lib, and tread and
-- treadn of apue.3e/printer/util.c. The system calls are parameters that bound what they move; the
-- fuel is the number of bytes asked for, since every round moves one.
--
-- Nonblock is str_cli of unpv13e/nonblock/strclinonb.c: two buffers with their pointers, and one
-- round of the loop round select, whose answers, with those of read and write, are an argument. As
-- select does, a round reports a descriptor only where it was asked for; read and write move at
-- most what they are given. The tracing that VOL2 compiles in is left out.
--
-- Opend is the open server of apue.3e/ipc2: its table of clients, opend/client.c, where the `goto
-- again` of client_add is taken once, after which the search cannot fail; and in Opend/Request a
-- request, from csopen of open/open.c through buf_args of apue.3e/lib/bufargs.c to handle_request.
-- strtok runs on fuel, the length of the text, since a token has a byte.
--
-- Gai is name resolution, unpv13e/libgai, compiled with IPv4, IPv6 and Unix domain sockets.
-- Gai.antt has its structures and a record (`System`) of what it asks of the system: inet_pton,
-- inet_ntop, the resolver, the services and uname. Gai/Arguments is ga_echeck and ga_nsearch,
-- Gai/Entries ga_aistruct, ga_clone and ga_unix, Gai/Services ga_port and ga_serv, Gai/Lookup
-- getaddrinfo and freeaddrinfo, Gai/Names getnameinfo and gn_ipv46. A run carries the list of
-- entries, which an error frees, and the paths that were unlinked. Memory is always given.
-- Gai/Agree and Gai/Ports carry the hints through the searches and the services, Gai/Sound the
-- whole call; Gai/Cloned and Gai/Doubles follow the entries that ga_clone makes, Gai/Returns and
-- Gai/Quits the calls that end the process, and Gai/Printed getnameinfo.
--
-- Links has doubly linked lists in a store of nodes, and what it means that a queue holds a list;
-- Links/Laws says how writes change a chain. Rwlock is the queue of apue.3e/threads/rwlock.c:
-- queue_init, job_insert, job_append, job_remove and job_find, whose loop runs on fuel, one more
-- than there are jobs being enough. A followed NULL pointer is a result of its own.
--
-- Printd is the printer daemon, apue.3e/printer/printd.c. Printd/Jobs has the list of pending jobs
-- (add_job, replace_job, remove_job), Printd/Queue and Printd/Pending its abstract view.
-- Printd/Spool is the spool directory: client_thread, build_qonstart, get_newjobno, update_jobno
-- and init_request, on the two directories as functions from job numbers; what the calls of a
-- client return, and how open and read deal with an entry of the directory, are arguments, unlink
-- succeeds, and the list of jobs is the abstract one. Printd/Answer follows client_thread through
-- its branches, Printd/Marked the test for PostScript, Printd/Numbers the job number, Printd/Kept
-- the directory as a whole, Printd/Restart build_qonstart. Printd/Ipp builds the request to the
-- printer (add_option and the headers of printer_thread), with the tags of Printd/Tag, where an
-- overrun of `str`, `ibuf` or `hbuf` is no result; Printd/Attributes and Printd/Encoded read it by
-- the rules of IPP, and Printd/Fits and Printd/Lengths count its bytes.
--
-- Readline is unpv13e/lib/readline.c: the buffer that is kept between calls, and the reads to come
-- as a list. Sockaddr has the functions of unpv13e/lib on socket addresses of any family
-- (sock_cmp_addr, sock_cmp_port, sock_get_port, sock_set_addr, sock_set_port, sock_set_wild,
-- sock_ntop_host, sock_ntop).
--
-- Not modelled: of the printer daemon the answer of the printer (printer_status, readmore), its
-- threads, signals, log and configuration; of the open server its loops and the passing of
-- descriptors; wrappers and examples that only call the system, copies of other projects' code
-- (unpv13e/libfree), and the programs in other languages.
pub mod Base
pub mod Db
pub mod Gai
pub mod Links
pub mod MemStream
pub mod Nonblock
pub mod Opend
pub mod Posix
pub mod Printd
pub mod Readline
pub mod Rwlock
pub mod Sockaddr
pub mod Transfer
