-- ===== src/Http.antt =====
-- The HTTP layer of src/http/: messages and their framing.
pub mod Header
pub mod Request
pub mod Response
pub mod Framing
