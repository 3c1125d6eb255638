-- ===== src/Monitor.antt =====
-- What an agent measures: pkg/monitor.
pub mod CpuStats
pub mod Cache
pub mod TcpRate
