-- ===== src/Billing.antt =====
-- Billing cycles and traffic accounting: internal/store/store.go, traffic.go, traffic_history.go.
pub mod Cycle
pub mod CycleLaws
pub mod CycleTimes
pub mod Daily
pub mod DailyLaws
pub mod Account
pub mod AccountLaws
pub mod Metering
