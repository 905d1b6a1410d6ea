-- ===== src/Tests.antt =====
-- Concrete runs of the modelled code.
mod Wire
mod Queue
mod Bucket
mod Clean
mod Uplink
mod Intake
mod Threads
mod Lifecycle
mod Cloud
mod Station
