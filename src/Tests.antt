-- ===== src/Tests.antt =====
-- The development run on small inputs: sequences, the limiter, the database, sync points and switches.
mod Sequence
mod Limiter
mod Node
mod Points
mod Switching
mod Cluster
mod Sending
mod Storage
mod Peers
