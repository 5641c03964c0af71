-- ===== src/Server.antt =====
-- The central server, central_server/. This file passes nothing on; its parts are the modules below.
pub mod Sql
pub mod Rows
pub mod Database
pub mod Printed
pub mod Handlers
pub mod Routes
pub mod Main
