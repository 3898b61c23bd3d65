-- ===== src/Net.antt =====
-- The sockets of src/net/ and the TLS stream of src/tls/, over system calls and OpenSSL as
-- parameters.
pub mod Calls
pub mod Socket
pub mod Listener
pub mod Tls
