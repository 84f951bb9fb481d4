-- ===== src/Panel.antt =====
-- The panel (panel/): its throttles, the statistics of blocked queries, the local block list and the
-- profiles of nodes.
pub mod LoginLimit
pub mod CdbLimit
pub mod Dnstap
pub mod LocalBlock
pub mod Profile
pub mod SmartDist
pub mod Cluster
pub mod Lua
pub mod Apply
pub mod Agent
pub mod Api
pub mod SqlStore
pub mod Builder
pub mod Publisher
pub mod TrustBuilder
mod Tests
