-- ===== src/Tests.antt =====
-- Runs of the definitions at concrete inputs.
mod Bus
mod Keyspace
mod Deadlines
mod Streams
mod Commands
mod Failover
mod Replicas
