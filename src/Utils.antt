-- ===== src/Utils.antt =====
-- cli_tool/include/utils.hpp. This file passes nothing on; its parts are the modules below.
pub mod Libraries
pub mod Environment
pub mod Text
pub mod Stun
pub mod Signalling
pub mod PublicAddress
pub mod Token
pub mod Metadata
