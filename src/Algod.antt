-- ===== src/Algod.antt =====
-- internal/algod.
pub mod Float
pub mod Prefetch
pub mod State
pub mod Cluster
pub mod Node
pub mod Signals
pub mod Submits
pub mod MainLoop
pub mod Start
pub mod World
pub mod Client
pub mod Loop
pub mod Evolve
pub mod Blocks
pub mod Progress
pub mod Loads
pub mod TxnId
pub mod Total
