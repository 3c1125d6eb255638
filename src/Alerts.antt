-- ===== src/Alerts.antt =====
-- The alerts of internal/server/telegram.go.
pub mod Delivery
pub mod DeliveryLaws
pub mod Sustained
pub mod Targets
pub mod TargetsLaws
pub mod State
pub mod PingCheck
pub mod Check
pub mod Engine
pub mod StateLaws
pub mod Announced
pub mod CheckLaws
pub mod Outages
pub mod Once
pub mod Silence
pub mod Jobs
pub mod JobsLaws
