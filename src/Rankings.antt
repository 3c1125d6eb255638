-- ===== src/Rankings.antt =====
-- The rankings of nodes: internal/store/rankings.go.
pub mod Start
pub mod Top
