-- ===== src/Tests.antt =====
-- Services in memory, and runs of the program on them.
mod Search
mod Memory
mod Scenario
mod Write
mod Create
mod Race
mod Orders
mod Streams
mod Views
mod Reads
mod Poison
mod CaughtUp
mod Interleaved
mod Redelivered
mod Platform
mod Once
mod Recovered
mod Lives
mod Provisioned
