-- ===== src/CommandLine.antt =====
-- The command line tool: cli_tool/main.cpp and the class Server of cli_tool/src/server.cpp. This
-- file passes nothing on; its parts are the modules below.
pub mod Usage
pub mod Sender
pub mod Main
