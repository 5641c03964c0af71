-- ===== src/Lib.antt =====
-- Zapshare: a file transfer between two peers over UDP, with a central server that introduces them.
--
-- The sender registers a transfer with the central server and waits on a UDP socket; the receiver
-- looks the transfer up by its secret, sends a client hello to the sender and, once the hello is
-- answered, fetches the file with a stop-and-wait protocol of get requests, data chunks,
-- acknowledgements and a done packet.
--
-- Which file models which part (paths from the repository's root):
--   Config       cli_tool/include/types.h: limits, the transfer's metadata, endpoints
--   Protocol     proto/v1/*.proto: the messages; Protocol.Codec is the generated code's interface
--   Crypto       shared/src/crypto/session_crypto.cpp over the interface Crypto.Libsodium, whose
--                generators Working takes not to fail; SelfTest is tests/CryptoTest.cpp
--   Utils        cli_tool/include/utils.hpp: Text has the string functions, Metadata the JSON of a
--                transfer and the calls of the central server, Signalling the exchange of endpoints
--                and the hole punch, Stun and PublicAddress the STUN server, Token the secret,
--                Environment the variables, Libraries the vendored libraries' interfaces
--   FileHash     cli_tool/include/crypto.hpp: compute_file_hash over the interface Sha256
--   Session      cli_tool/include/session.hpp: Stream is std::ifstream, Control the control packets,
--                Handshake the hello, with what is decided on each packet in Verdicts, Packets the
--                dispatch by state
--   Server       central_server/include/database.hpp and main.cpp: Sql has the statements'
--                interface, what they do and which values fit, Rows and Database the table, with
--                what a registration leaves in Database.Atomic, Handlers the handlers, Routes the
--                routes with what httplib does around them, Main the whole of main, with what
--                outlasts all requests in Keeps, Printed the prints
--   Client       cli_tool/src/client.cpp: Output is std::ofstream, Receive the loop of receive_file,
--                Handshake the hello and its loop, Run the whole of run_client_session
--   CommandLine  cli_tool/main.cpp, src/server.cpp, include/server.hpp and include/error.hpp
--   Transfer     both sides together: over any network (Safety), over one that loses nothing
--                (Exchange), the two hellos (Hello), and all of it from the hello on (Whole)
--   Platform     what both run on: libraries, HTTP, files, over one state of the outside
--   Base         tests, lists, byte strings, and how a C++ call ends
--   Tests        concrete libraries that satisfy the interfaces' laws, and examples
--
-- A session is a record of the members of class Session; a handler takes it and gives the new one
-- with the datagrams that it sends. receive_file is a function of the list of what
-- recv_with_timeout gives: a result `none` says that the loop still runs when the list ends. A byte
-- string is a list of numbers; size_t and uint64_t sums are cut to 64 bits. An exception and a
-- failed CHECK are outcomes of a call, and so is an end that C++ leaves undefined: there the model
-- stops. register_transfers ends so whenever its row is committed, since it has no return statement;
-- the table keeps the row, and the requests behind it are answered by a server started anew.
--
-- Fuel: hash_loop has one round more than the file has bytes, and every round but the last takes
-- 4096 bytes off; Exchange.exchange takes its fuel as an argument, and run-Completes says how much
-- is enough; the digits of to_string are at most 20, those of a 64-bit number; a round of
-- parse_attributes goes on by four bytes or more, so that a round for every byte received is enough.
-- poll_rounds and handshake_rounds take their number of rounds, 30 and MAX_RETRIES in the source.
--
-- Not modelled: sockets and timers; most prints; a file that changes while it is sent; signals and
-- threads, so that a request to the central server runs alone. The vendored copies of
-- nlohmann::json and cpp-httplib, and libsodium, OpenSSL, protobuf and PostgreSQL are interfaces with
-- their documented behaviour as laws.
pub mod Base
pub mod Client
pub mod CommandLine
pub mod Config
pub mod Crypto
pub mod FileHash
pub mod Platform
pub mod Protocol
pub mod Server
pub mod Session
pub mod Tests
pub mod Transfer
pub mod Utils
