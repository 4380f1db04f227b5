-- ===== src/Websocket.antt =====
-- src/websocket, include/rikitiki/websocket: frames written and received, the process of a connection
-- and the server's table of processes.
pub mod OpCode
pub mod Write
pub mod Receiver
pub mod Rfc
pub mod Frame
pub mod Process
pub mod Server
