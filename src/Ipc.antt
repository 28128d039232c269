-- ===== src/Ipc.antt =====
-- ipc.c: the control socket, from the bytes of a client to the sheets that they switch.
pub mod Strings
pub mod Requests
pub mod Socket
pub mod Clients
pub mod Parsing
pub mod Serving
pub mod Running
pub mod Ending
mod Tests
