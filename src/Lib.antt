-- ===== src/Lib.antt =====
-- A model of the network file system, its naming server and its storage servers.
--
-- A naming server keeps, for each storage server, a tree of the paths that it exports, and a cache
-- of the paths that clients asked for last. A client sends a command to the naming server
-- (naming_server.c, `process_client`), which finds the storage server of its path
-- (`search_storage_server`), and either passes the command on to it and to its two backups, or
-- tells the client the address. A storage server reads the commands of the naming server
-- (storage_server.c, `listen_to_nm`), and keeps a table of locks by path for its writes.
--
--   * Tries: tries.h and tries.c. A node's `childeren` is a sequence of slots, each null or a child.
--     Tries.Defs has `CreateNode`, `ParsePath`, `AddPathToTrie`, `SearchPath` and `DeletePath`;
--     Tries.Display has `DisplayTrie` and `DisplayTrieNetwork`, where the printing is a list of
--     lines and the sending a function that is a parameter.
--   * Lock: lock.c. Lock.Defs has the functions between locking and unlocking the mutex, Lock.System
--     the steps of any number of threads that use one lock.
--   * Naming.Cache: `LRUCache` of naming_server.c, as an array in Defs and as a list in View.
--   * Naming.World: the global variables of naming_server.c, the network as a parameter that answers
--     by the events so far, and `isSSUp` and `redundantSS`, whose
--     theorems are in Naming.Ping and Naming.Backups. A function ends with a value, waits for
--     ever on the semaphore, or has undefined behaviour.
--   * Naming.Search: `search_storage_server`. Naming.Valid is the invariant of the global variables.
--   * Naming.Index, Storage.Index, Storage.Listing: `indexHelper`, and `_indexSubFolders` and
--     `indexSubFolder` of helper.c, on a folder as a tree.
--   * Naming.Register: `register_storage_server` and `create_backup_helper`; `handle_copy_request` is
--     a parameter, as in Naming.Commands.
--   * Naming.Commands: `process_client`, one command, with a function for each branch.
--   * Naming.Copy: `handle_copy_request`, which fills this parameter. Defs has its branches and its
--     messages, Messages and Read what storage servers read in them, Branches what each branch
--     leads to, and Whole a copy from the command to the files.
--   * Naming.Async: `listen_async` and `create_client_socket` of naming_server.c.
--   * Naming.System: the naming server over any number of requests, one after the other. Keeps and
--     Valid say what a request keeps; Commands, Handlers, Copies and Process are about `process_client`,
--     Acknowledge about `listen_async`, and Registration about `register_storage_server`. Reach has the
--     states that requests lead to from the start of `main`.
--   * Errors: ErrorCodes.h.
--   * Storage: `doesLockRequestedFileAlreadExist` and `write_file` (Locks, Write), and the choice of
--     an operation by `listen_to_nm` (Listen, Protocol), which Perform carries out; Removed has `rm` from
--     the naming server to the file and back. Storage.Async has `write_file_async`, where
--     what the local buffer holds at the start is a parameter; Storage.Appended has its theorems.
--     Storage.Requests has `process_client` of storage_server.c, where the words that it reads in freed
--     memory are a parameter, Served what requests send, and Acknowledged a write up to the naming
--     server.
--   * Files: the operations of helper.c with their replies, `list_file`, `read_file`,
--     `read_mp3_file` and `send_file_metadata`, on a connection that is a parameter.
--   * Client: client.c. World has the terminal and the answers of the network, Text `trim` and
--     `count_words`, Listing, Servers and Write the branches, and Loop the loop of `main`. Clean and
--     Shown follow a listing; Grant, Sent, Written and Acknowledged a `write` to the file; Address,
--     Reached and Fetched a command that a storage server answers; Shrinks and Ends the loop. The messages of
--     `perror` are left out.
--   * Transfer: the copies of helper.c. Transfer.Send has `copy_different_src`,
--     `copy_different_src_b`, `send_directory_over_network` and `send_file_over_network` as functions
--     of a connection, Transfer.Receive has `copy_different_dest`, `copy_different_dest_b`,
--     `receive_and_save_file` and `receive_and_save_directory` from one `recv` to the next, and the
--     connection between the two, where the bytes of a file arrive in the pieces that a parameter
--     chooses. Transfer.Local has `copy_same`, `copy_directory` and `copy_file`.
--     Confirm, Arriving, Content, Saved and Copied follow one message, one piece, one file, one folder and a whole copy;
--     Refused has a file that does not open; Same and Both compare the two kinds of copy. A folder
--     is a tree, as `stat` and `readdir` find it.
--
-- An index or a result of -1 is none. Bytes are numbers, a C string is the list of its bytes
-- without the NUL, and an access out of bounds or through NULL is a result of its own. `decimal`
-- writes up to ten digits, which an int does not exceed. The pieces of a file and of a message are
-- bounded by its length, and no piece is empty. The loop of the client has fuel, of which more than
-- the bytes of the input are enough. All other recursion is on the data. The calls of `send`,
-- `recv`, `connect`, `fopen` and `mkdir` are parameters, and every receive of a client ends; the
-- theorems on a whole copy take a connection that delivers the bytes of a file in any pieces, in their
-- order, and every other message whole, and files that refuse nothing.
--
-- Not modelled: the interleaving of the naming server's threads, the set-up of sockets and threads,
-- the log file, what the operations of helper.c do to files but copy them, the keys that pause the
-- client's player, and the memory that is freed.
pub mod Prelude
pub mod Tries
pub mod Lock
pub mod Naming
pub mod Errors
pub mod Client
pub mod Storage
pub mod Transfer
pub mod Files
mod Tests
