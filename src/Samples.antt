-- ===== src/Samples.antt =====
-- The theorems at concrete inputs, and runs of the definitions.
mod Transcripts
mod Guards
mod Splits
mod Summaries
mod Caches
mod Blocks
mod Queues
mod Failovers
mod Riders
mod Stages
mod Managed
mod Stubs
mod Turns
mod Spawns
mod Deliveries
