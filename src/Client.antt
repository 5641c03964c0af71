-- ===== src/Client.antt =====
-- cli_tool/src/client.cpp: the receiver's side. The children model the output file, the loop of
-- receive_file, the handshake and run_client_session.
pub mod Output
pub mod Receive
pub mod Handshake
pub mod Run
