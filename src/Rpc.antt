-- ===== src/Rpc.antt =====
-- The JSON-RPC server of the backend (backend/jsonrpc).
pub mod Message
pub mod Context
pub mod Container
pub mod Router
pub mod Request
pub mod Session
pub mod Server
