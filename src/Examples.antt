-- ===== src/Examples.antt =====
-- The theorems at concrete inputs, and tests of the definitions.
mod Streams
mod Machines
mod Orchestrators
mod Texts
mod Watching
mod EdgeNodes
mod Center
mod Repos
mod Recording
mod Delivering
mod Overwriting
mod Observing
mod Fetching
mod Registering
mod Following
mod Polled
mod Beating
mod Programs
mod Querying
mod Hosting
mod Heartbeats
mod Storing
