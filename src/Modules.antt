-- ===== src/Modules.antt =====
-- The shared modules of lib/, and the C interface between them and the host.
pub mod Abi
pub mod Config
pub mod Routes
pub mod RouteTable
pub mod Router
pub mod HeaderGuard
pub mod HostGuard
pub mod JwtAuth
pub mod KeyValue
pub mod Cors
pub mod RateLimit
pub mod StaticFiles
