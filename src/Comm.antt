-- ===== src/Comm.antt =====
-- src/comm.c and include/seawolf/comm.h: the wire format of messages and the request identifiers.
pub mod Message
pub mod Wire
pub mod Requests
pub mod Receive
pub mod Authenticate
mod Tests
