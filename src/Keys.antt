-- ===== src/Keys.antt =====
-- Validator keys and their rotation: src/keys, over the quorum collector of
-- src/consensus/commitment-broadcaster.ts.
pub mod Identifiers
pub mod Registry
pub mod Activation
pub mod Index
pub mod Consistent
pub mod Rotating
pub mod Retiring
pub mod Calls
pub mod Sets
pub mod Broadcast
pub mod Ceremony
pub mod Approval
pub mod Quorum
pub mod Events
pub mod Accepted
pub mod Phases
pub mod Rotations
pub mod Forward
pub mod Examples
