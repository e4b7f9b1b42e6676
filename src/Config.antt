-- ===== src/Config.antt =====
-- internal/config: the managed files, their snapshots, and the transactions that change them.
pub mod Path
pub mod Image
pub mod World
pub mod Disk
pub mod Vault
pub mod Transaction
pub mod Samples
mod Examples
mod Crashes
pub mod Facts
