-- ===== src/Rpc.antt =====
-- The endpoints of the agents: internal/server/rpc_handler.go.
pub mod Dispatch
pub mod DispatchLaws
pub mod Register
pub mod RegisterLaws
