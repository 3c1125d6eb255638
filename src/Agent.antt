-- ===== src/Agent.antt =====
-- The agent of internal/agent, which samples a node and reports to the server.
pub mod Response
pub mod ResponseLaws
pub mod ErrorLog
pub mod ErrorLogLaws
pub mod Pings
pub mod PingsLaws
pub mod Client
pub mod ClientLaws
pub mod Signals
