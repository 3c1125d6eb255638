-- ===== src/Examples.antt =====
-- The theorems at concrete inputs.
mod Limits
mod Ping
mod Billing
mod Store
mod Reports
mod Alerts
mod Live
mod Checks
mod Jobs
mod Agent
mod Rpc
mod Monitor
mod Uptime
mod History
mod Rankings
mod Ingest
