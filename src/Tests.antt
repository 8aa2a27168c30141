-- ===== src/Tests.antt =====
-- Runs of the models on small inputs.
mod Queues
mod Lives
mod Graphs
mod Streams
mod Drains
mod Schedulers
mod Runners
mod Nodes
mod Tables
mod Media
mod Observers
mod Loaders
mod Lifetimes
mod Templates
