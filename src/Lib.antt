-- ===== src/Lib.antt =====
-- Verification of the FileShareX core, the C++ TCP server of this repository.
--
-- A client sends frames over a TCP connection. `TcpSession` reads one frame after the other and hands
-- its message to a handler; the handlers share the session registry, the transfers, the stored
-- files and the database. Every handler runs to its end before the next message is looked at, so a
-- state of the server is a value and a message is a step on it.
--
-- Base: numbers, lists, texts, tests, results, maps and actions that the other files share. A result
-- is a value, a thrown text (`err`), or `fault`: undefined behaviour, such as a read outside a
-- vector or the use of a closed file.
-- Wire, Protocol: integers on the wire and the message payloads of core/include/fsx/protocol.
-- A byte is a number below 256, a `std::string` the list of its bytes, and the byte order of the
-- host is an argument. A `deserialize` faults where it would read outside the payload.
-- Transfer: the TransferManager (core/src/transfer/transfer_manager.cpp) with its sessions.
-- FileStore: the FileStore (core/src/storage/file_store.cpp) over a model of the C library's files. What
-- the operating system answers is an argument of each operation. A file handle numbers the stream that `fopen`
-- opened: it is not its address, which the C library may give again once the stream is closed, and the use
-- of a handle whose stream was closed is undefined behaviour, whatever stands at that address by then.
-- Db: Db, UserRepository and SessionRepository (core/src/db). libpq, RAND_bytes and
-- PKCS5_PBKDF2_HMAC are the fields of the parameter `Services`. Where something is assumed of them,
-- it is a hypothesis of the theorem. A `long long` is its two's-complement pattern.
-- Auth: AuthHandler (core/src/net/auth_handler.cpp) and, in Auth/PasswordHash, the password hashes
-- (core/src/auth/password_hash.cpp). What a stream reads as hexadecimal from characters that are not
-- hexadecimal digits is a parameter, `HexReader`.
-- Server: SessionManager (core/src/net/session_manager.cpp), in Server/Sessions, and TcpSession
-- (core/src/net/tcp_session.cpp): its file handlers in Server/Offers and Server/Files, and its dispatch, read loop and
-- write queue in Server/Dispatch. A session object is named by a number, and a weak pointer has
-- expired when no object stands under its number.
-- The handlers run on a little-endian host. Server/Writing has the write queue again, with the write that is under way.
-- What follows from them is in the other files of Server, by subject: Login, Access, Answered, Ownership,
-- Finishing, Online, Listing, Directory and Reading for single messages and calls; Members and Senders for what the
-- messages keep of every session object and of every transfer's sender; Handles, Held, Keeping, Invariant,
-- Reachable, Steps, Reach, Granted and Offered for all the worlds that the server comes to; Upload, Accepting
-- and Delivery for a file from its acceptance to its place; Streaming for the read loop over the frames that
-- a client sends, and Whole for the bytes of an upload; Writing/Order for the frames that the server writes.
-- Client: the programs of client/src over a socket, which is the parameter `Socket`. Client.antt has
-- what they share, Client/Requests and Client/Sending follow client/src/test_file_transfer.cpp,
-- Client/Answers client/src/test_auth.cpp and client/src/test_persistent.cpp, Client/Arguments reads the
-- command lines, and Client/Programs has what each `main` does once it is connected. Client/Chunks, Loop,
-- Bounds, Frames and Reading relate them to the file that is sent and to the server's messages;
-- Client/Exchange runs a whole upload, and the reading of the server's answers (Client/Exchange/Showing), on a
-- socket that plays the server's part.
-- Start: `main` of core/src/main.cpp and the connection to the database (core/src/db/db.cpp). The
-- environment, what PQconnectdb gives, and whether the port can be bound are arguments.
-- Start/DbClient and Start/Config are the older database client and the settings that no file of the program
-- uses (core/src/storage/db_client.cpp and db_config.cpp, core/include/fsx/common/config.h).
-- Log: the Logger (core/src/log/logger.cpp), which no file calls, over the files of the disk.
-- Tests: runs and instances.
--
-- Recursion is on lists, but for four kinds of fuel: the number of digits of a printed number, twenty,
-- which is enough below 2 ^ 64; the rounds of the client's chunk loop, one more than the file has
-- bytes, since each round but the last sends at least one; the rounds of the read loop over the bytes
-- that came in, two for each message and one to wait; and the rounds of the client that pings for
-- ever, which are an argument. What the server logs to the console and what the clients print on the way are
-- not modelled; the gateway and the scripts are in other languages.
pub mod Base
pub mod Wire
pub mod Protocol
pub mod Transfer
pub mod FileStore
pub mod Db
pub mod Auth
pub mod Server
pub mod Client
pub mod Start
pub mod Log
mod Tests
