-- ===== src/Rpz.antt =====
-- tools/rpz-master: the RPZ slave and distributor.
pub mod Serial
pub mod Types
pub mod Domain
pub mod Transfer
pub mod Delta
pub mod Server
pub mod Config
pub mod Sync
pub mod Publication
pub mod App
mod Tests
