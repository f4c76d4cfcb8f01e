-- ===== src/Lib.antt =====
-- The network library of DHServer: a game server and its client over Windows completion ports.
--
-- The sources, from the repository's root, and the files here:
--   DHNetWork/DHNetWork/{NetWorkDefine.h, DHNetWorkAPIDefine.h, SharedDataStruct.h}: Shared (the
--     constants and structures), Shared/Bytes (words in byte memory, memcpy_s) and Shared/Packet
--     (Packet_Header as bytes);
--   DHNetWork/DHNetWork/ObjectPool.h: ObjectPool, with the proofs in ObjectPool/Lending and
--     ObjectPool/Accounts;
--   DHNetWork/DHNetWork/DHServer.h and DHServer.cpp: Server (the state), Server/Sockets (the tables
--     of sockets), Server/Recv, Server/Send, Server/Io (IOFunction_Accept, IOFunction_Disconnect,
--     IOFunction_Send), Server/Work (WorkThread), Server/Start (Accept) and Server/Stop (End);
--   DHNetWork/DHNetWork/NetWorkBase.cpp: Disconnect_EX, in Server/Sockets;
--   DHNetWork/DHNetWork/DHClient.h and DHClient.cpp: Client (the state, Send, Recv, Connect, End),
--     Client/Recv, Client/Send and Client/Run (ConnectSendThread, WorkThread);
--   DHNetWork/DHNetWork/DHNetWork.h and DHNetWork.cpp, with the virtual calls of NetWorkBase.h:
--     DhNetWork, the object that becomes a server or a client;
--   DHNetWork/DHNetWork/MemoryPool.h and MemoryPool.cpp: MemoryPool (blocks of memory by size);
--   DHNetworkAPI/DHNetworkAPI/DHNetWorkAPI.h and DHNetWorkAPI.cpp: DhNetWorkApi, the class that a
--     program uses, which passes its calls on to a DHNetWork;
--   DHDB/DHDB/DHDBCore.h and DHDBCore.cpp: Db (the state and the queries), Db/Login (the accounts),
--     Db/Friends (the friends) and Db/Text (text as bytes);
--   GameLauncher/GameLauncher/{GamePlayLauncher, LoginLauncher, AccountCreate}.cpp, with
--     GameLauncher/ImportLibrary/Inc/LauncherLoginPacketDefine.h: Launcher (the messages to the login
--     server), Launcher/Requests and Launcher/Friends (what is shown of the user's friends),
--     Launcher/Answer (the line that tells what became of a request), Launcher/Playing (the game
--     process), Launcher/Contents (the buttons of the news), Launcher/Login (both other dialogs),
--     Launcher/Connecting (how it connects), Launcher/Pass (the state and a pass of
--     RecvServerPacket) and Launcher/Posting (what its messages
--     become in the client of the network).
-- Functions keep their names: IOFunction_Recv is io_recv, Reserve_WSAReceive reserve_wsa_receive,
-- BackUp_Overlapped back_up_overlapped. Shared/Reassembly is no code: it says on the bytes alone how
-- a stream is cut into packets, and is what the receiving side is measured by; nor is
-- Db/Login/Statement, which reads an INSERT statement by the syntax of SQL. Receiver and Sender are
-- the interfaces that the receive loops and the sending loops of the server and the client both fill,
-- and Server/Tables the one that a predicate on the tables of sockets fills to be kept by every
-- handler. Base has the shared helpers, and Tests the runs at concrete inputs.
--
-- The parts. Accept opens the sockets and posts an AcceptEx on each. Windows completes the posted
-- calls; WorkThread takes the completions as entries and calls the handler for the kind of the
-- overlapped structure. A handler for received bytes moves them into the buffer of the overlapped,
-- cuts packets from it into the receive queue, and posts the next receive. Send puts copies of a
-- packet into the send queue, and SendThread sends them in blocks. The pool lends the overlapped
-- structures to all of these. The client has the same receiving and sending side for one socket. The
-- launcher is a program that uses the client: its dialogs send their requests through it, and a thread
-- takes the states of the friends from it.
--
-- The model. A handler is a function from the state to an Outcome: `done` with the new state, `spin`
-- where the thread waits in an empty loop for what another thread would have to do, and `fault` where
-- C++ leaves the behaviour undefined. The state is explicit; memory is a list of bytes, pointers to
-- pooled objects and socket structures are numbers with a function from addresses to contents. Calls
-- of Windows are recorded in `calls`, newest first, and a parameter `Os` (for the client, also the
-- results of connect) says what they return, from all the calls before. A size_t wraps at 2 ^ 64, an
-- unsigned short at 2 ^ 16, the counters at 2 ^ 32. The build is 64 bit with NDEBUG: asserts do
-- nothing. One thread runs at a time, and a handler is not interrupted, but in Server/Work/Race, where
-- worker threads take turns within IOFunction_Accept. The database is a parameter `Mysql`: whether a
-- query fails, and the result that it leaves, from all the queries before; the queries sent are
-- recorded. A std::set of names is a list without repetitions. Qt and FlatBuffers are a parameter
-- `Toolkit` of the launcher: the codec, the sorting of children, and what a table is as bytes. A slot
-- of a dialog and a pass of RecvServerPacket are not interrupted, but come in any order, and a HideUI
-- that the thread has signalled waits until the dialog takes it.
--
-- Fuel. The receive loop has one round more than there are bytes to process, and each packet takes
-- ten bytes or more. The sending loop has one round more than bytes to send, and each round sends
-- one or more. Both are shown to end by their own tests. The fuel of the loop in Accept is a
-- parameter, since the loop need not end; that of the client's retries of connect too.
--
-- Not modelled: TimeThread, messages on the console and the blocks of the MemoryPool that the other
-- parts take for their texts, locks of the hash maps, the lookup of the DisconnectEx function, the
-- class DHDB, which passes calls on to DHDBCore, the `delete[]` of an array on the stack by which a
-- WorkThread of the server ends, what the threads do with a completion port that was not made, the
-- making and closing of the MySQL handle, the pictures and fonts of the launcher, and the test
-- programs, which only try out the library. The hash maps and queues of oneTBB are taken as
-- association lists and lists.
pub mod Base
pub mod Client
pub mod Db
pub mod DhNetWork
pub mod DhNetWorkApi
pub mod Launcher
pub mod MemoryPool
pub mod ObjectPool
pub mod Receiver
pub mod Sender
pub mod Server
pub mod Shared
pub mod Tests
