-- ===== src/Tests.antt =====
-- Concrete runs of the components.
mod Fixtures
mod SagaRuns
mod LeaseRuns
mod ConsumerRuns
mod WorkerRuns
mod ReadModelRuns
mod MessageRuns
mod ReplayRuns
mod SystemRuns
mod ProcessRuns
