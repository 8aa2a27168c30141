-- ===== src/Runner.antt =====
-- src/core/graph_runner.cpp: the state of a running graph, part by part.
pub mod Stream
pub mod Sync
pub mod Drain
pub mod State
pub mod Edges
pub mod Inputs
pub mod Observers
pub mod Sources
pub mod Restarts
pub mod Templates
pub mod Emission
pub mod Tables
pub mod Lifetime
pub mod Starting
pub mod Halting
pub mod FailStop
pub mod Delivery
pub mod Operations
