-- ===== src/Examples.antt =====
-- Small instances of the parameters, on which the theorems are applied and the definitions run.
pub mod Codec
pub mod Parties
pub mod Stores
pub mod Services
pub mod Streams
pub mod Consumers
pub mod Journeys
pub mod Arrivals
pub mod Settlements
pub mod Declarations
pub mod Loads
pub mod FixedLoads
pub mod Sessions
pub mod Benchmarks
pub mod BenchmarkRuns
