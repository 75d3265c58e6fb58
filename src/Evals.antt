-- ===== src/Evals.antt =====
-- evals: the datasets of the gate's evaluation, the probes made from them, and the runner's metrics.
pub mod Schema
pub mod RoundTrip
pub mod Probes
pub mod Crossed
pub mod Made
pub mod Shapes
pub mod Runner
pub mod Stats
pub mod Metrics
pub mod Counted
pub mod Percentile
pub mod Total
pub mod Rates
pub mod Complete
