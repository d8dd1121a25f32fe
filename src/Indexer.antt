-- ===== src/Indexer.antt =====
-- The indexer canister (ord_canister/src).
pub mod Lot
pub mod Entry
pub mod Tables
pub mod Balances
pub mod Held
pub mod Allocation
pub mod Settlement
pub mod Updater
pub mod Blocks
pub mod Sync
pub mod Memory
pub mod Lookups
pub mod Canister
pub mod Rpc
pub mod Codec
