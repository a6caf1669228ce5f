-- ===== src/Slashing.antt =====
-- The slashing nonce sequencer: src/staking/slashing_sequencer.ts over src/database/nonce_store.ts.
pub mod Wal
pub mod Sequencer
pub mod Order
pub mod Recovery
pub mod Payload
pub mod Window
pub mod Examples
