-- ===== src/App.antt =====
-- The runtime of src/app/ and src/server.cpp: admission, queue, pipeline and connections.
pub mod CommandLine
pub mod Discovery
pub mod Loading
pub mod Limiter
pub mod Queue
pub mod Pipeline
pub mod Server
pub mod Connection
