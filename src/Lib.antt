-- ===== src/Lib.antt =====
-- yftpserver: the FTP server of jni/yftp, from the bytes of a control connection to the replies,
-- the accounts, the transfers, and the ways to start and configure the server.
--
-- Parts and files. A connection hands each piece of input to `ftp_server::process_command`
-- (jni/yftp/ftp_server.cpp: FtpServer.antt, its switch in FtpServer/Dispatch.antt), which looks up
-- the client node of the socket in the accounts (jni/yftp/user_manager.cpp: UserManager.antt;
-- jni/yftp/user_node.h and jni/yftp/client_manager.cpp: UserNode.antt), lets the node's parser
-- (jni/yftp/request_parser.cpp: RequestParser.antt, its table in Commands.antt) take one command,
-- and runs the node's handler (jni/yftp/client_node.cpp: ClientNode.antt with ClientNode/Login.antt
-- for USER, PASS, REIN and the end, ClientNode/DataPort.antt for PORT, PASV and the data
-- connection, ClientNode/Files.antt for files and directories, ClientNode/Transfer.antt for what
-- starts or stops a transfer, ClientNode/Secure.antt for PROT and AUTH, ClientNode/Site.antt for
-- SITE, ClientNode/Scan.antt for the number readers of the C library). A handler writes a reply
-- (jni/yftp/reply.h: Reply.antt) and builds its paths by jni/yftp/common.cpp (Common.antt). A
-- transfer runs in a thread of its own (ClientNode/Threads.antt, with Retrieve.antt, Store.antt and
-- Listing.antt below it), started by a handler as a `Job` and run on the client node by
-- FtpServer/Jobs.antt; ClientNode/Threads/Steps.antt splits a download and an upload into their
-- blocks, and Connection/Interleaving.antt lets any other event come between two of them.
-- ClientNode/Downloads.antt and ClientNode/Uploads.antt put the handler of a transfer and its
-- thread together. Connection.antt is the loop of a connection (jni/yftp/connection.cpp),
-- Listener.antt the acceptor (jni/yftp/server.cpp). The server is configured by
-- FtpServer/Configuration.antt, which is called from the settings of the application
-- (jni/yftp/ftpserve_native.cpp: Native.antt), by the console program or from a configuration file
-- (jni/yftp/main.cpp: Console.antt, ConfigFile.antt). Conversion.antt is jni/yftp/conversion.cpp.
-- Connection/Reachable.antt puts all of it together: the states that the server can reach by input,
-- threads, configuration and changes outside. The other files below these hold proofs, and
-- Tests.antt the examples.
--
-- State. Client nodes and user nodes are shared objects of the source, so they stand in tables by
-- address: `World.clients` and `UserManager.node`; the lists of the source are lists of addresses.
-- Between two calls a client node lives as long as an account lists it (`references` counts the
-- `shared_ptr`s, `is_owned` asks for one); a thread holds its address only, and
-- Connection/Lifetime.antt is about the nodes that are gone. A handler that changes the accounts
-- runs on a `Login`, any other on a `Turn`. `Outcome` tells a result from a use of a null pointer
-- or of an object that was destroyed (`fault`), an exception (`thrown`) and a loop out of fuel
-- (`running`).
--
-- Parameters. `Platform` is the compiler and `std::wstring_convert`, `CLibrary` what the C library
-- converts, `FileSystem` is boost::filesystem, its streams, the clock and rand(), `Network` and
-- `Acceptor` are boost::asio, each over a state that it may change; `Delivers` and `KeepsFiles` say
-- of a network and a disk that what is written to them stays written, and `ListensWhereBound` says
-- when an acceptor listens: a `close` ends that also where it reports an error; `ConfigSource` is
-- the configuration file of the service.
--
-- Bounds and fuel. Characters and bytes are native numbers, ports wrap at 2 ^ 16 and the numbers of
-- a PORT argument, read as an `unsigned long` of 64 bits that stays at its bound, at 2 ^ 32. Fuel
-- stands where the source loops as long as there is more: the search of STOU for a free name, the
-- blocks of a transfer (enough are one more than the bytes or blocks) and the users of a
-- configuration file (enough are one more than the users). The loop of PASV makes ten tries, as in
-- the source.
--
-- Not modelled: what a stream reads of a file that changes while it is open (a download reads the
-- file as it was when it was opened); what comes between two lines of a listing (`list_thread` is
-- one step on its client node); the JNI functions, which convert strings, and the Android
-- application; the locks, each call being one step; what the console program and the service print.
pub mod Prelude
pub mod Conversion
pub mod Platform
pub mod Reply
pub mod Commands
pub mod RequestParser
pub mod FileSystem
pub mod Common
pub mod UserNode
pub mod UserManager
pub mod Network
pub mod Calendar
pub mod ClientNode
pub mod FtpServer
pub mod Connection
pub mod Listener
pub mod Native
pub mod Console
pub mod ConfigFile
pub mod Tests
