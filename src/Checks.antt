-- ===== src/Checks.antt =====
-- The theorems at concrete inputs, on the engine in memory, and runs of the code.
mod Clients
mod Endings
mod Continuities
mod Listings
mod Servers
mod Stores
mod Watching
mod Nodes
mod Services
mod Snapshots
mod Compactions
mod Resumptions
mod Keys
