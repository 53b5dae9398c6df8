-- ===== src/Tests.antt =====
-- Runs of the model at concrete inputs.
mod Instances
mod Ids
mod Caches
mod Waits
mod Nodes
mod Requests
mod Prefetches
mod Conversions
mod Loads
mod Servers
mod Signals
mod Submits
mod Proxies
mod Serves
mod Life
