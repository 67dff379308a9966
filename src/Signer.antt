-- ===== src/Signer.antt =====
-- crates/signer: local keys and wallets.
pub mod Local
pub mod Wallet
