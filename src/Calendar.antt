-- ===== src/Calendar.antt =====
-- The part of Go's package time that billing uses: civil dates of the Gregorian calendar in the
-- fixed zone UTC+8 (`trafficLocation` of internal/store/traffic_history.go).
pub mod Dates
pub mod Months
pub mod Zone
