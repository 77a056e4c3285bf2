-- ===== src/Api.antt =====
-- The methods of the JSON-RPC API (backend/api) and their registration.
pub mod Params
pub mod Methods
pub mod Transaction
pub mod Statistics
pub mod Registration
pub mod Pages
