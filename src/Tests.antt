-- ===== src/Tests.antt =====
-- Concrete runs: each theorem at an input that meets its hypotheses.
mod Overlaps
mod Filling
mod Clients
mod Containers
mod Setup
mod Lifecycle
mod Stores
mod Handling
mod Executing
mod Configuring
mod Answering
mod Pooling
mod Serving
mod Redis
mod Tracking
mod Overlapping
