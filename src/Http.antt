-- ===== src/Http.antt =====
-- The HTTP layer: messages in and out, and the collections and enumerations they hold.
pub mod RequestMethod
pub mod Encoding
pub mod ContentType
pub mod Header
pub mod Parsing
pub mod Incoming
pub mod Status
pub mod Response
pub mod Outgoing
pub mod Message
pub mod Request
pub mod Memory
pub mod Buffered
