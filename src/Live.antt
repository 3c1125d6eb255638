-- ===== src/Live.antt =====
-- The live view of the dashboards: internal/server/ws_hub.go.
pub mod Pace
pub mod PaceLaws
pub mod Hub
pub mod HubLaws
pub mod Delivered
