-- ===== src/Wallet.antt =====
-- The wallet canister (wallet/src).
pub mod Sets
pub mod Utxos
pub mod Select
pub mod Txn
pub mod Kinds
pub mod Transfer
pub mod MultiSend
pub mod RuneOutputs
pub mod RuneTransfer
pub mod Combined
pub mod Signer
pub mod Submit
pub mod Flow
pub mod Fetch
pub mod Withdraw
