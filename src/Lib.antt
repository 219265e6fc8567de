-- ===== src/Lib.antt =====
-- The HamangServer relay server (Multithread1): a model of its C++ code, and what is proved of it.
--
-- The program keeps one room. Clients connect by TCP and send packets, which are tokens with a "#"
-- behind each: the signature LEX, the number of tokens, the sender's number, a kind, and a body. The
-- server hands most packets on to the other players, keeps those that a later player needs, answers
-- requests, and tells everybody of joins, departures and a new master.
--
-- Files and what they model, paths from the repository's root:
--   Prelude          Booleans, integers, lists and results that all parts share. A call that does not
--                    return (exception, failed assertion, undefined behaviour, endless loop) is `err`
--   Text             the parts of std::string that are used (find, substr), and Text/Decimal: stoi
--                    and to_string
--   Protocol         Multithread1/SharedEnums.h
--   Values           Multithread1/Values.h: BUFFER, PER_IO_DATA's modes, RPC
--   Message          Multithread1/NetworkMessage.h: Split, GetNext, Append, SetEndPoint and the others
--   Rpc              Multithread1/BufferedMessages.cpp: the queue of buffered messages
--   Properties       Multithread1/HashTable.h and .cpp: custom properties
--   Buffers          Multithread1/IOCP_Server.h: CreateEmptyBuffer, CreateMessageBuffer, RecycleIO
--   Player, Players  Multithread1/Player.cpp, Multithread1/PlayerManager.cpp: Send, CreatePlayer,
--                    SetMasterClient, RemovePlayer, the broadcasts
--   Ping             Multithread1/PingManager.cpp
--   Odbc             SQLtest/SQLtest.cpp: the functions of `direxec` that DBMS_NI.cpp repeats, as the
--                    calls of ODBC they make; Odbc/Handles: the order that ODBC allows
--   SqlTest          SQLtest/SQLtest.cpp: sqlexec and main
--   Database         Multithread1/DBMS_NI.cpp: the statements, the log-in reply; Database/Connection:
--                    the calls of ODBC
--   Sqlite           Multithread1/DBManager.cpp: the same over SQLite, which nothing calls any more
--   State            the singletons of the program as one record, and the environment
--   Handler          Multithread1/MessageHandler.cpp: HandleMessage and each request
--   Server           Multithread1/IOCP_Server.cpp: HandlePlayerJoin, HandlePlayerDisconnect,
--                    ResetServer; Server/Receive: a round of EchoThreadMain; Server/Opening:
--                    OpenServer; Server/Steps: these steps in any order; Server/Room: how a
--                    client reads the room message
--   Client           Client/Clientcpp.cpp and Client/0506multiThreadClient.cpp: SendMsg, RecvMsg;
--                    Client/Receiving: RecvMsg of the older one
--   Program          Multithread1/main.cpp, which returns before it opens the server
--   Examples         runs on concrete inputs
--
-- How the parts interact: `receive_message` cuts a text with `split`, `handle_message` handles its
-- packets on the state `Server`, and `relay` broadcasts what is to be handed on. Players live on a
-- heap; the table, the master pointer and the handles hold addresses in it, so that a player who was
-- removed is still there for those who hold the address.
--
-- Bounds and fuel: the loops of Split, SendBufferedMessages and HandleMessage can run for ever, so
-- they take fuel, and `out_of_fuel` stands for a run that has not ended. More fuel than the text has
-- bytes, two rounds more than the queue is long, and more rounds than there are packets are enough
-- where the theorems say so. The cursor and the conversion of a length wrap at 2^32; stoi checks the
-- range of an int. Positions in a text and counts of tokens are plain numbers, as a text is at most a
-- buffer long; the next actor number is one too, and theorems that print it bound it by 2^31.
--
-- Not modelled: threads (each handler is one step, as the mutexes make it for the parts), sockets and
-- the completion port (a call of WSASend or closesocket is recorded, the bytes that a call of WSARecv
-- brings are a parameter), console output of the server, UTF conversions, the connecting of the
-- clients, and the sharing of a buffer by a client's two threads. The clock, ODBC, SQLite, the
-- memory of a freed handle, the order in which arguments are evaluated, and what memcpy leaves of
-- ranges that overlap are parameters (`Env`, `Sqlite`). The tables' order of iteration is that of a list with new keys at its end. Assertions
-- are checked, as in a debug build.
pub mod Prelude
pub mod Text
pub mod Protocol
pub mod Message
pub mod Values
pub mod Rpc
pub mod Properties
pub mod Buffers
pub mod Player
pub mod Players
pub mod Ping
pub mod Odbc
pub mod Database
pub mod Sqlite
pub mod SqlTest
pub mod State
pub mod Handler
pub mod Server
pub mod Client
pub mod Program
pub mod Examples
