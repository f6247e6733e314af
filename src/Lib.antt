-- ===== src/Lib.antt =====
-- A file store of three programs: clients send requests to a name server, which keeps the index of all
-- files with their access lists and sends each request on to the storage server that has the file; a
-- storage server keeps the contents, edits them sentence by sentence and writes them to its disk. The
-- programs speak a binary protocol whose messages begin with a header of twelve bytes.
--
-- Parts and modules (paths from the repository's root):
-- - common/src/protocol.c, common/include/protocol.h: Protocol (opcodes, error codes, names) and
--   Protocol/Header (the header's bytes, on hosts of both byte orders).
-- - common/src/net.c: Sockets (send_all and recv_all, over the answers of the kernel to send and recv),
--   with send_message and recv_message of storage_server/src/main.c.
-- - name_server/src/file_index.c: FileIndex (the trie with the heap of its records: file_index_add,
--   _lookup, _remove, _add_ss_replica, _get_all), FileIndex/Acl (file_record_add_acl, _remove_acl,
--   _find_acl, _check_access) and FileIndex/Cache (lru_cache_get, _invalidate). FileIndex/History has
--   the abstract view: a function from names to records.
-- - storage_server/src/storage_engine.c, its text routines: Text (compute_spans, count_words,
--   tokenize_words, apply_updates, join_words, is_valid_checkpoint_tag, normalize_relative_path).
-- - the same file, its disk: Disk (ensure_dir, ensure_parent_dir, atomic_write, read_file_if_exists).
-- - common/src/persistence.c: Persistence (the paths of all files that the servers keep).
-- - storage_server/src/storage_engine.c, its operations: Storage (the record of a file and of the
--   engine), Storage/Metadata (the text of the metadata, load_metadata), Storage/Loading (build_paths,
--   persist_*, get_or_load_file, storage_engine_init), Storage/Writing (storage_engine_write),
--   Storage/Handlers (create_file, delete_file, read, unlock_sentence, undo, info, mark_access),
--   Storage/Checkpoints (checkpoint, view_checkpoint, revert_checkpoint, import).
--   Storage/Validity and Storage/Editing are about them.
-- - name_server/src/main.c and storage_server/src/main.c, their readers of JSON: Json (json_get_string,
--   json_get_uint, parse_json_string_array, append_json_string_literal) and Json/Plain (the ones of the
--   storage server).
-- - storage_server/src/main.c: StorageServer (the list of locked sentences), StorageServer/WriteRequest
--   (handle_write_request, cut where other threads can come between), StorageServer/Sessions (many
--   write sessions as a step relation), StorageServer/Requests (the handlers of one call of the engine)
--   and StorageServer/Requests/Replication (handle_replicate_request).
-- - name_server/src/main.c: NameServer (nm_state_t and what is found in it), NameServer/Files (the files
--   it writes), NameServer/Selection (the choice of a server), NameServer/Lookup (handle_lookup_file,
--   handle_heartbeat), NameServer/Registration (handle_register_ss, handle_register_client),
--   NameServer/Requests (access requests and their file), NameServer/Commands and
--   NameServer/Commands/Storage (the branches of handle_command_forward).
-- - Prelude: numbers, lists, C strings, decimal numbers, the allocator.
--
-- How the code is read. An operation takes the state and returns the new state with its result. A
-- pointer that a function compares with NULL is an Option; a C string is the list of the bytes before
-- its NUL, and a counted buffer is the list of its bytes. The clock and gmtime_r are arguments. A pointer
-- to a file of the storage engine is its place in the array of files. The trie's records stand on a heap,
-- so that a record that the listing returns is the one that the trie points to.
--
-- Failures. The name server's functions take the answers of the allocator as a list, and each branch for
-- a failed allocation is there. In the storage engine memory does not run out; the system calls of
-- atomic_write take their answers from a list in the same way, so that every one of them can fail, unlink
-- included.
--
-- Memory that is given back. Where realloc grows the array of locks under a held lock, the engine's `moves`
-- says whether it moves the array; if it does, the lock in the new array stays held, and what is written to
-- the old one is not modelled. Where apply_updates fails after realloc has taken the words, the caller reads
-- and frees what is no longer there: the result is use_after_free, which is no value of the source, and
-- nothing is said of what follows.
--
-- Threads. The functions of the storage engine hold the mutex of the file for as long as they use it, and
-- so run one after the other in the model. Each sentence lock has the state of its mutex and its flag.
-- A write request of the storage server is a sequence of steps, each from one point at which other
-- threads can come between to the next; a world is a server with the sessions at work on it. The name
-- server has one thread.
--
-- Messages. A handler returns the messages that it sends to its client. What a storage server answers to
-- the name server, or to another storage server, is an argument, which a theorem can fill with a handler.
-- A payload that a handler of the storage server reads is not null, since the source passes it to strstr.
--
-- Bounds and fuel. Fixed buffers cut what is copied into them as the source does. ensure_dir calls itself
-- on a shorter path, and has the length of the path as its fuel (Disk/Directories). The loop that doubles the capacity of
-- the locks has the wanted number as its fuel, which is enough, since the capacity grows by at least one.
-- decimal writes at most twenty digits, enough for 64 bits. undo_seq wraps at 64 bits; sums of sizes do
-- not, since they are the sizes of buffers in memory.
--
-- The file of access requests is parsed with the length of the text and one as fuel, enough because each
-- line has a byte; so are the names of a manifest. Loads are sums in 32 bits, and the age of a heartbeat
-- is the difference of two times of 64 bits, taken with its sign.
--
-- Not modelled: the branches LISTREQUESTS, VIEW, LIST and EXEC of handle_command_forward, which print
-- tables with the local time, or run a shell; the folders of the storage engine and of both servers; the
-- list of checkpoints; the loops over connections, client_handler_thread and handle_payload, which
-- dispatch to handlers of which these are some; tcp_listen and tcp_connect of common/src/net.c; the
-- client, which reads a terminal; logs; destructors, which leave no trace here.
pub mod Prelude
pub mod Protocol
pub mod FileIndex
pub mod Sockets
pub mod Text
pub mod Disk
pub mod Persistence
pub mod Storage
pub mod Json
pub mod StorageServer
pub mod NameServer
