-- ===== src/Tests.antt =====
-- Tests, and the theorems applied to concrete data.
pub mod Fixtures
pub mod Server
mod RpcExamples
mod MessageExamples
mod ApiExamples
mod DbExamples
mod StreamExamples
mod FetcherExamples
mod SessionExamples
mod IntervalExamples
mod GenesisExamples
mod StatisticsExamples
mod ServerExamples
pub mod Settings
mod MainExamples
mod BackendExamples
