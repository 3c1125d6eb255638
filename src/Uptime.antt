-- ===== src/Uptime.antt =====
-- The online time of nodes per local day, in internal/store/traffic_history.go and store.go.
pub mod Online
pub mod Measure
pub mod Tally
pub mod Covered
pub mod Status
