-- ===== src/Tests.antt =====
-- The theorems at concrete inputs.
mod Protocol
mod Graph
mod Workflow
mod Track
mod Loop
mod Store
mod Sessions
mod Gateway
mod Pool
mod Machines
mod Schema
mod Plugins
