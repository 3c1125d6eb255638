-- ===== src/Ping.antt =====
-- The latency probes: internal/store/ping_history.go, ping_data.go and node_profile.go.
pub mod Search
pub mod Window
pub mod WindowLaws
pub mod WindowPush
pub mod WindowRuns
pub mod Results
pub mod Samples
pub mod Spaced
pub mod SamplesLaws
pub mod SamplesRuns
pub mod SamplesAgain
pub mod Prune
pub mod Chosen
pub mod Chart
pub mod Rollup
pub mod Builder
pub mod BuilderLaws
pub mod PruneLaws
pub mod BuilderChart
pub mod BuilderRuns
pub mod Answer
pub mod AnswerLaws
pub mod AnswerBounds
