-- ===== src/Hub.antt =====
-- src/hub: the message hub. Its state and the functions of hub/client.c, hub/netio.c, hub/netloop.c,
-- hub/var.c and hub/process.c, each in a module of its own.
pub mod State
pub mod Client
pub mod Vars
pub mod Process
pub mod Net
pub mod Config
mod Tests
