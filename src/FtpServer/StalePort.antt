-- ===== src/FtpServer/StalePort.antt =====
-- The static variable of `process_pasv_cmd`, jni/yftp/client_node.cpp, once `set_data_port_range`,
-- jni/yftp/ftp_server.cpp, has set another range.
use yftpserver.Platform.{Platform}
use yftpserver.FileSystem.{FileSystem}
use yftpserver.Network.{Network}
use yftpserver.Reply.{Reply}
use yftpserver.Commands.{Commands}
