-- ===== src/Tests.antt =====
-- Concrete libraries that satisfy the interfaces' laws, and the theorems at inputs that run.
mod Wire
mod World
mod Inputs
mod Transfers
mod Sessions
mod Sealing
mod Rows
mod Stun
mod Token
mod Json
mod Tables
mod Central
mod Hellos
mod Fetches
mod Greetings
mod Whole
mod Digests
