-- ===== src/Pipeline/Run.antt =====
-- `run`, `runStage`, `stageBody`, `runInterceptors`, `stageAfter`, `finishCommitted` and
-- `finishRejected` of packages/core/src/pipeline/turn-pipeline.ts: one turn over all its stages. The
-- stages that shape the action and the narrative, and the hooks that observe the end of a turn, are
-- functions on the scratch; so they touch neither the kernel nor the session. An interceptor runs once
-- in a turn, so that its answer is a value. Time-outs and exceptions are left out; the dispatch of
-- module events is Pipeline.Dispatch.
mod Types
mod Stage
mod Turn
pub mod Draft
pub mod Kept
pub mod Published
pub mod Standing
pub mod Outcomes
pub mod Late
mod Tests
unfoldable pub use Types.*
unfoldable pub use Stage.*
unfoldable pub use Turn.*
