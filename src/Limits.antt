-- ===== src/Limits.antt =====
-- The bounded tables of internal/server/rpc_limit.go and internal/server/security.go.
pub mod Oldest
pub mod Pacing
pub mod PacingLaws
pub mod Login
pub mod LoginLaws
pub mod LoginWindows
pub mod ClientIp
pub mod ClientIpLaws
